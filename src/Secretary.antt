-- ===== src/Secretary.antt =====
-- The personal secretary service.
pub mod Timers
pub mod Interaction
pub mod Progress
pub mod Learning
