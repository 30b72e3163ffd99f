-- ===== src/Monitor.antt =====
-- The monitor of the broker, src/monitor/mod.rs and src/monitor/web.rs.
pub mod State
pub mod Collector
pub mod Web
pub mod System
