-- ===== src/Dispatch.antt =====
-- From an approved remediation to a pull request (src/patchline/core/dispatch.py).
pub mod Github
pub mod Body
pub mod Branch
pub mod Push
pub mod Gate
pub mod Run
pub mod Trust
pub mod Board
