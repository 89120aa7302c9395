-- ===== src/Task/Laws.antt =====
-- Proofs about the operations on task rows.
pub mod Rows
pub mod Results
pub mod States
pub mod Audit
pub mod Stamps
pub mod Approvals
pub mod Leases
pub mod Claims
