-- ===== src/Jobs/Enqueue.antt =====
-- How jobs enter the queue: scans of an entry, a rescan, a verification, and the periodic rescans
-- (enqueue_scans_for_entry, enqueue_rescan, enqueue_verification, enqueue_periodic_rescans of jobs.py).
use patchline.Prelude.{
  ℕ, zero, suc, ◌+◌, ◌-◌, Bool, true, false, ◌&&◌, ◌||◌, not, Option, none, some, List, [], ◌∷◌,
  ◌++◌, Text, text, same, strip, lower, or_blank, Option, some, none, max, filter, find, any,
  if◌then◌else◌,
}
use patchline.Models.{
  ScanJob, JobStatus, verification, Repository, ChangelogEntry, EntryStatus, Status, scanning,
  migrated, no_hits, CoverageState, JobType, job_table, repository_table, entry_table,
}
use patchline.Query.{next_id, get}
use patchline.Tx.{Tx, pure, gets, change, ◌>>=◌, ◌>>◌, for_each}
use patchline.Coverage.{transition, apply_transition, same_status}
use patchline.Jobs.Row.{
  priority_user, priority_rescan, is_active, new_job, is_pending_scan, is_pending_verification,
  is_pending_pair,
}
use patchline.Jobs.Branches.{ordered_branches}

-- (a or "").strip().lower() == (b or "").strip().lower()
unfoldable pub language_matches : Repository → ChangelogEntry → Bool
language_matches repo entry =
    same (lower (strip (or_blank repo.primary_language))) (lower (strip entry.language))

-- The job that the loop over the branches makes for one of them.
unfoldable pub branch_job : ℕ → ChangelogEntry → Repository → ℕ → Text → ℕ → ScanJob
branch_job now entry repo priority branch i =
    let job =
      new_job i entry.id repo.id branch
        (if same branch repo.default_branch then priority else max (priority - 1) 0) now in
    if language_matches repo entry
    then job
    else record job { status = JobStatus.skipped_language; completed_at = some now }

-- One round of the loop: nothing if such a job is queued or running.
unfoldable pub enqueue_branch :
    ℕ → ChangelogEntry → Repository → ℕ → Text → List ScanJob → List ScanJob
unfolding branch_job
enqueue_branch now entry repo priority branch jobs =
    elim (find (is_pending_scan entry.id repo.id branch) jobs) [
      | some job ↦ jobs
      | none ↦ jobs ++ branch_job now entry repo priority branch (next_id jobs) ∷ []
    ]

unfoldable pub enqueue_branches :
    ℕ → ChangelogEntry → Repository → ℕ → List Text → List ScanJob → List ScanJob
unfolding enqueue_branch
enqueue_branches now entry repo priority [] jobs = jobs
enqueue_branches now entry repo priority (b ∷ names) jobs =
    enqueue_branches now entry repo priority names (enqueue_branch now entry repo priority b jobs)

-- repr(s) for a text without quotes, backslashes and control characters
abbrev quoted : Text → Text
quoted s = text "'" ++ s ++ text "'"

abbrev repr : Option Text → Text
repr none = text "None"
repr (some s) = quoted s

unfoldable pub mismatch_detail : Repository → ChangelogEntry → Text
mismatch_detail repo entry =
    text "language mismatch: repo="
    ++ repr repo.primary_language
    ++ text " entry="
    ++ quoted entry.language

-- The board is told last, by a write that may be refused.
unfoldable pub enqueue_repository : ℕ → ChangelogEntry → ℕ → Repository → Tx (Unit {0})
unfolding enqueue_branches language_matches
enqueue_repository now entry priority repo =
    if is_active repo.connection_state
    then (do
      change (λ db. record db {
        jobs = enqueue_branches now entry repo priority (ordered_branches repo) db.jobs;
      })
      apply_transition now (
          if language_matches repo entry
          then transition entry.id repo.id scanning JobType.scan
          else record (transition entry.id repo.id Status.skipped_language JobType.scan) {
            detail = some (mismatch_detail repo entry);
          })
      pure tt)
    else pure tt

unfoldable pub enqueue_scans_for_entry : ℕ → ChangelogEntry → List Repository → ℕ → Tx (Unit {0})
unfolding enqueue_repository
enqueue_scans_for_entry now entry repos priority =
    for_each repos (enqueue_repository now entry priority)

-- delay_seconds, where 0 means no delay
abbrev pub delayed : ℕ → ℕ → Option ℕ
delayed now zero = none
delayed now (suc n) = some (now + suc n)

-- branch or repo.default_branch
abbrev pub branch_or_default : Option Text → Repository → Text
branch_or_default (some (c ∷ s)) repo = c ∷ s
branch_or_default _ repo = repo.default_branch

unfoldable pub rescan_job : ℕ → ChangelogEntry → Repository → Option Text → ℕ → ℕ → ℕ → ScanJob
rescan_job now entry repo branch priority delay_seconds i =
    record (new_job i entry.id repo.id (branch_or_default branch repo) priority now) {
      next_attempt_at = delayed now delay_seconds;
    }

unfoldable pub enqueue_rescan : ℕ → ChangelogEntry → Repository → Option Text → ℕ → ℕ → Tx ScanJob
unfolding rescan_job
enqueue_rescan now entry repo branch priority delay_seconds = do
  i ← gets (λ db. next_id db.jobs)
  let job = rescan_job now entry repo branch priority delay_seconds i
  change (λ db. record db { jobs = db.jobs ++ job ∷ [] })
  apply_transition now (transition entry.id repo.id scanning JobType.scan)
  pure job

unfoldable pub verification_job : ℕ → ChangelogEntry → Repository → ℕ → ℕ → ScanJob
verification_job now entry repo delay_seconds i =
    record (new_job i entry.id repo.id repo.default_branch priority_user now) {
      purpose = verification;
      next_attempt_at = delayed now delay_seconds;
    }

-- One verification for a pair at a time: a pending one is returned as it is.
unfoldable pub add_verification : ℕ → ChangelogEntry → Repository → ℕ → Option ScanJob → Tx ScanJob
unfolding verification_job
add_verification now entry repo delay_seconds (some job) = pure job
add_verification now entry repo delay_seconds none = do
  i ← gets (λ db. next_id db.jobs)
  let job = verification_job now entry repo delay_seconds i
  change (λ db. record db { jobs = db.jobs ++ job ∷ [] })
  pure job

unfoldable pub enqueue_verification : ℕ → ChangelogEntry → Repository → ℕ → Tx ScanJob
unfolding add_verification
enqueue_verification now entry repo delay_seconds = do
  existing ← gets (λ db. find (is_pending_verification entry.id repo.id) db.jobs)
  add_verification now entry repo delay_seconds existing

abbrev is_ready : EntryStatus → Bool
is_ready EntryStatus.ready = true
is_ready _ = false

-- status.in_(["migrated", "no_hits"])
abbrev pub is_settled : Status → Bool
is_settled s = same_status s migrated || same_status s no_hits

abbrev pub wants_rescan : Repository → ChangelogEntry → List ScanJob → CoverageState → Bool
wants_rescan repo entry jobs row =
    is_active repo.connection_state
    && is_ready entry.status
    && not (any (is_pending_pair row.entry_id row.repository_id) jobs)

-- One round of the loop of enqueue_periodic_rescans. The job has the default purpose.
unfoldable pub rescan_row :
    ℕ → Option Repository → Option ChangelogEntry → CoverageState → List ScanJob → List ScanJob
rescan_row now (some repo) (some entry) row jobs =
    if wants_rescan repo entry jobs row
    then jobs
      ++ new_job (next_id jobs) row.entry_id row.repository_id repo.default_branch priority_rescan
          now
        ∷ []
    else jobs
rescan_row now _ _ row jobs = jobs

unfoldable pub rescan_rows :
    ℕ → List ChangelogEntry → List Repository → List CoverageState → List ScanJob → List ScanJob
unfolding rescan_row
rescan_rows now entries repos [] jobs = jobs
rescan_rows now entries repos (row ∷ rows) jobs =
    rescan_rows now entries repos rows
      (rescan_row now (get row.repository_id repos) (get row.entry_id entries) row jobs)

unfoldable pub enqueue_periodic_rescans : ℕ → List ChangelogEntry → List Repository → Tx (Unit {0})
unfolding rescan_rows
enqueue_periodic_rescans now entries repos = change (λ db. record db {
  jobs = rescan_rows now entries repos (filter (λ row. is_settled row.status) db.coverage) db.jobs;
})
