-- ===== src/Runs.antt =====
-- debbuilder/build_models.py and debbuilder/validation_automation.py: the admission metadata that a Run
-- and an automatic Validation carry.
pub mod Texts
pub mod Origin
pub mod Validation
pub mod Coherent
pub mod Published
