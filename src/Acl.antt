-- ===== src/Acl.antt =====
-- The access control of the broker: src/acl/matcher.rs and src/acl/mod.rs.
pub mod Matcher
pub mod Levels
pub mod Coverage
pub mod Registered
pub mod Cache
pub mod Service
pub mod Interleaving
pub mod Decision
