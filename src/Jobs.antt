-- ===== src/Jobs.antt =====
-- The queue of scan jobs (src/patchline/core/jobs.py).
pub mod Row
pub mod Branches
pub mod Enqueue
pub mod Queue
pub mod Claim
pub mod Periodic
pub mod Refusal
