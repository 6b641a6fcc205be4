-- ===== src/Execution.antt =====
-- debbuilder/execution_manager.py: the bounded queue of Runs, its worker and its shutdown.
pub mod Manager
pub mod Admission
pub mod Worker
pub mod Trace
pub mod Counts
pub mod Orderly
pub mod Settled
pub mod Working
pub mod Reachable
pub mod Accounts
pub mod Tracked
pub mod Release
pub mod Stored
pub mod Resolved
