-- ===== src/Identity.antt =====
-- debbuilder/automation_identity.py: the exact upstream identity of an automation attempt.
pub mod Model
pub mod Read
pub mod Check
pub mod Normalize
