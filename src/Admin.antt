-- ===== src/Admin.antt =====
-- The administration API, src/admin/mod.rs and src/admin/auth.rs.
pub mod Server
pub mod Invariants
pub mod Auth
pub mod Login
pub mod Users
pub mod Batch
pub mod Categories
pub mod Topics
pub mod Acls
pub mod Revocation
pub mod Provisioning
pub mod Accounts
pub mod Grants
pub mod Rules
pub mod Disabling
pub mod Cache
pub mod Router
