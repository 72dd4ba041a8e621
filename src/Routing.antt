-- ===== src/Routing.antt =====
-- toad/internal/routing: selected-route identities, the ownership registry with its two transaction
-- machines, the checkpoint, the reconciliation planner and the in-memory executor.
pub mod Identity
pub mod Record
pub mod Machine
pub mod Registry
pub mod Restore
pub mod Plan
pub mod Snapshot
pub mod History
pub mod Executor
pub mod Ownership
