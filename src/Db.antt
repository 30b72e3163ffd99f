-- ===== src/Db.antt =====
-- The database layer, src/db/mod.rs, over the tables of migrations.
pub mod Schema
pub mod Query
pub mod Categories
pub mod Users
pub mod Topics
pub mod Acls
pub mod Defaults
pub mod Admins
pub mod Invariants
pub mod Writes
pub mod Migrations
pub mod Table
pub mod Constraints
pub mod Integrity
