-- ===== src/Initiative.antt =====
-- The lifecycle of initiatives.
pub mod Status
pub mod StatusHttp
pub mod Model
pub mod Phases
pub mod Launch
pub mod Governance
pub mod Contracts
pub mod Objectives
pub mod Autonomous
pub mod Ready
