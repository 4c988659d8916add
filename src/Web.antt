-- ===== src/Web.antt =====
-- The web app's core, webapp/core.
pub mod InitData
pub mod Limiter
pub mod EventQueue
pub mod Tests
