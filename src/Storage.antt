-- ===== src/Storage.antt =====
-- src/raft/storage.rs: the log, the vote and the state machine that openraft works on, in one redb
-- file of three tables.
pub mod Types
pub mod Log
pub mod Machine
pub mod Recovery
pub mod Replicas
pub mod Ranges
mod Tests
