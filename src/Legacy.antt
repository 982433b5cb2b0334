-- ===== src/Legacy.antt =====
-- The state of the mode with several writers, which replicas exchange and merge: src/store.rs.
pub mod Types
pub mod Changes
pub mod Merge
pub mod Keys
pub mod Refine
pub mod Converge
pub mod Recreate
pub mod Messages
pub mod Synchronise
pub mod Raft
pub mod Durable
mod Tests
pub mod Contents
