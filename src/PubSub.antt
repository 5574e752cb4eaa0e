-- ===== src/PubSub.antt =====
-- src/pubsub.rs: clients, their data channels, and the client database. The crate `submap` is a
-- parameter; the shared client objects and the channels between tasks stand on an explicit heap.
pub mod Submap
pub mod Store
pub mod Db
