-- ===== src/Client.antt =====
-- src/client.rs and `Message` of src/lib.rs: the commands that a client sends, and what it receives.
pub mod Command
pub mod Message
pub mod Data
pub mod Consumes
pub mod Framing
pub mod Requests
pub mod Deliveries
pub mod Feeds
pub mod Channel
pub mod Tasks
pub mod Watch
pub mod Exchange
pub mod Answers
pub mod Config
pub mod Connect
pub mod Greeted
pub mod Handshake
pub mod Handle
pub mod Waiting
