-- ===== src/Scheduler.antt =====
-- debbuilder/automation_scheduler.py: periodic detection, its retry state and its requests.
pub mod Delay
pub mod RetryStore
pub mod Outcome
pub mod Requests
