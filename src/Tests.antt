-- ===== src/Tests.antt =====
-- Concrete inputs: the external components as small functions, runs of the code, and instances of
-- the theorems.
mod ListedMap
mod ListedLaws
mod Pages
mod Handshakes
mod Brokers
mod Starts
mod Texts
mod Streams
mod Database
mod Sessions
mod Packets
mod Connections
mod Feeds
mod Commands
mod Credentials
mod Terminals
mod Crossings
mod Journeys
mod Lives
