-- ===== src/Orchestrator.antt =====
-- debbuilder/automation_orchestrator.py: the coordination of claims across the managers.
pub mod Services
pub mod Effects
pub mod Authority
pub mod Records
pub mod Publishing
pub mod Validating
pub mod Reserving
pub mod Reasons
pub mod Enqueuing
pub mod Admitting
pub mod Advancing
pub mod Logic
