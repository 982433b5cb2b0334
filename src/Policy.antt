-- ===== src/Policy.antt =====
-- The Raft control plane's deterministic policy state machine: src/raft/types.rs and
-- src/raft/state_machine.rs.
pub mod Types
pub mod Services
pub mod Tokens
pub mod Apply
pub mod Rejection
pub mod Epoch
pub mod View
pub mod Dedup
pub mod WellFormed
pub mod Invariant
pub mod Remembered
pub mod Retries
pub mod Idempotence
pub mod TokenUse
pub mod Tests
