-- ===== src/Task.antt =====
-- The lifecycle of orchestrator tasks.
pub mod State
pub mod Model
pub mod Store
pub mod Laws
