-- ===== src/Scanning.antt =====
-- The execution of a scan job (src/patchline/core/scanning.py).
pub mod Start
pub mod Finish
pub mod Execute
pub mod Outcome
