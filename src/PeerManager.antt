-- ===== src/PeerManager.antt =====
-- peer_manager.rs: the server that keeps the known peers and the subscriptions.
pub mod State
pub mod Choose
pub mod Subscriptions
pub mod Handle
pub mod Invariant
pub mod Preserve
pub mod Keys
pub mod Timers
pub mod KeyTables
pub mod Tables
pub mod LastWrite
pub mod Candidates
pub mod Assignments
pub mod Zones
pub mod Departures
pub mod Reassign
mod Tests
