-- ===== src/Examples.antt =====
-- The theorems at concrete inputs.
mod Tasks
mod Logs
mod Gateway
mod Learning
mod Services
mod Initiatives
mod Workers
mod Autonomous
mod Objectives
mod Runner
mod Auth
