-- ===== src/Auth.antt =====
-- The authenticators: src/replicate.rs, src/admin.rs, src/admin_v2.rs and src/raft/token.rs.
pub mod Crypto
pub mod Sort
pub mod Replicate
pub mod Accept
pub mod Admin
pub mod Replayed
pub mod Requests
pub mod AdminV2
pub mod Signature
pub mod JoinToken
pub mod Admission
pub mod Administrators
mod Tests
