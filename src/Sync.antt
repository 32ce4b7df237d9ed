-- ===== src/Sync.antt =====
-- What the program asks GitHub for in case a webhook was missed: the states of its pull requests
-- (src/patchline/core/pr_sync.py) and the installations (src/patchline/core/recheck.py).
pub mod Pulls
pub mod Installations
pub mod Reconcile
pub mod Recheck
pub mod Board
