-- ===== src/Ledger.antt =====
-- debbuilder/automation_ledger.py: the durable ledger of automation attempts.
pub mod Row
pub mod Validate
pub mod Document
pub mod Rows
pub mod Store
pub mod Claims
