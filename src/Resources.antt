-- ===== src/Resources.antt =====
-- debbuilder/resource_limits.py: the resource policy of a Run and its admission contract.
pub mod Policy
pub mod Contract
pub mod Bounds
pub mod Meet
pub mod Admission
