-- ===== src/Sound/Queue.antt =====
-- The queue of jobs tells the board only through apply_transition.
use patchline.Prelude.{ℕ, Option, none, some, List, Text}
use patchline.Models.{ChangelogEntry, Repository, ScanJob}
use patchline.Tx.Respects.{Respects}
use patchline.Coverage.Sound.{KeepsSound, sound_rules}
use patchline.Jobs.Enqueue.{
  enqueue_repository, enqueue_scans_for_entry, enqueue_rescan, add_verification,
  enqueue_verification, enqueue_periodic_rescans,
}
use patchline.Jobs.Queue.{
  claim_candidate, claim_next_job, requeue_stale_jobs, reenqueue_rate_limited,
}

enqueue_repository-IsSound :
    (now : ℕ) (entry : ChangelogEntry) (priority : ℕ) (repo : Repository)
    → Respects KeepsSound (enqueue_repository now entry priority repo)
unfolding enqueue_repository
enqueue_repository-IsSound now entry priority repo = search sound_rules

pub enqueue_scans_for_entry-IsSound :
    (now : ℕ) (entry : ChangelogEntry) (repos : List Repository) (priority : ℕ)
    → Respects KeepsSound (enqueue_scans_for_entry now entry repos priority)
unfolding enqueue_scans_for_entry
enqueue_scans_for_entry-IsSound now entry repos priority =
    search (sound_rules, enqueue_repository-IsSound)

pub enqueue_rescan-IsSound :
    (now : ℕ) (entry : ChangelogEntry) (repo : Repository) (branch : Option Text)
    (priority delay : ℕ)
    → Respects KeepsSound (enqueue_rescan now entry repo branch priority delay)
unfolding enqueue_rescan
enqueue_rescan-IsSound now entry repo branch priority delay = search sound_rules

add_verification-IsSound :
    (now : ℕ) (entry : ChangelogEntry) (repo : Repository) (delay : ℕ) (o : Option ScanJob)
    → Respects KeepsSound (add_verification now entry repo delay o)
unfolding add_verification
add_verification-IsSound now entry repo delay none = search sound_rules
add_verification-IsSound now entry repo delay (some job) = search sound_rules

pub enqueue_verification-IsSound :
    (now : ℕ) (entry : ChangelogEntry) (repo : Repository) (delay : ℕ)
    → Respects KeepsSound (enqueue_verification now entry repo delay)
unfolding enqueue_verification
enqueue_verification-IsSound now entry repo delay = search (sound_rules, add_verification-IsSound)

pub enqueue_periodic_rescans-IsSound :
    (now : ℕ) (entries : List ChangelogEntry) (repos : List Repository)
    → Respects KeepsSound (enqueue_periodic_rescans now entries repos)
unfolding enqueue_periodic_rescans
enqueue_periodic_rescans-IsSound now entries repos = search sound_rules

claim_candidate-IsSound :
    (now : ℕ) (o : Option ScanJob) → Respects KeepsSound (claim_candidate now o)
unfolding claim_candidate
claim_candidate-IsSound now none = search sound_rules
claim_candidate-IsSound now (some job) = search sound_rules

pub claim_next_job-IsSound : (now : ℕ) → Respects KeepsSound (claim_next_job now)
unfolding claim_next_job
claim_next_job-IsSound now = search (sound_rules, claim_candidate-IsSound)

pub requeue_stale_jobs-IsSound :
    (minutes now : ℕ) → Respects KeepsSound (requeue_stale_jobs minutes now)
unfolding requeue_stale_jobs
requeue_stale_jobs-IsSound minutes now = record {
  at = λ db h. record { unique = h.unique; audited = h.audited };
}

pub reenqueue_rate_limited-IsSound :
    (now job_id : ℕ) (after : Option ℕ)
    → Respects KeepsSound (reenqueue_rate_limited now job_id after)
unfolding reenqueue_rate_limited
reenqueue_rate_limited-IsSound now job_id after = search sound_rules
