-- ===== src/Remediation.antt =====
-- Remediations of src/patchline/core/remediation_flow.py.
pub mod Validate
pub mod Generate
