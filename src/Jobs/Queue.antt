-- ===== src/Jobs/Queue.antt =====
-- How jobs leave the queue and return to it (claim_next_job, requeue_stale_jobs, reenqueue_rate_limited
-- of jobs.py).
use patchline.Prelude.{
  ℕ, zero, suc, ◌+◌, ◌*◌, Bool, true, false, ◌&&◌, ◌||◌, Option, none, some, List, [], ◌∷◌, ◌++◌,
  text, show, leb, ltb, ◌==◌, count_if, if◌then◌else◌,
}
use patchline.Models.{ScanJob, queued, running, job_table, repository_table, entry_table}
use patchline.Query.{modify, modify_all, get}
use patchline.Tx.{Tx, ok, pure, gets, change, ◌>>=◌, ◌>>◌}
use patchline.Jobs.Row.{is_queued, is_running}

abbrev is_due : ℕ → Option ℕ → Bool
is_due now none = true
is_due now (some t) = leb t now

-- What the query of claim_next_job lets through.
abbrev pub is_claimable : ℕ → ScanJob → Bool
is_claimable now job = is_queued job.status && is_due now job.next_attempt_at

-- ORDER BY priority DESC, created_at ASC, id ASC: does `a` come before `b`?
unfoldable pub goes_first : ScanJob → ScanJob → Bool
goes_first a b =
    ltb b.priority a.priority
    || (a.priority == b.priority
        && (ltb a.created_at b.created_at || (a.created_at == b.created_at && leb a.id b.id)))

unfoldable pub prefer : ScanJob → Option ScanJob → ScanJob
unfolding goes_first
prefer job none = job
prefer job (some other) = if goes_first job other then job else other

-- The first of the claimable jobs in that order: LIMIT 1.
unfoldable pub best : ℕ → List ScanJob → Option ScanJob
unfolding prefer
best now [] = none
best now (job ∷ jobs) =
    let rest = best now jobs in if is_claimable now job then some (prefer job rest) else rest

abbrev pub claimed : ℕ → ScanJob → ScanJob
claimed now job = record job { status = running; claimed_at = some now; started_at = some now }

-- The conditional UPDATE: it writes the row if it is still queued, and tells how many rows it wrote.
unfoldable pub update_claim : ℕ → ℕ → List ScanJob → ℕ × List ScanJob
update_claim now job_id jobs =
    let open_row = λ (j : ScanJob). j.id == job_id && is_queued j.status in
    (count_if open_row jobs, modify open_row (claimed now) jobs)

-- The claim of a selected job on the rows as they are by then. Anything but one row written is a
-- rollback and no claim.
unfoldable pub claim : ℕ → ℕ → List ScanJob → Option ScanJob × List ScanJob
unfolding update_claim
claim now job_id jobs =
    let (updated, jobs') = update_claim now job_id jobs in
    if updated == 1 then (get job_id jobs', jobs') else (none, jobs)

unfoldable pub claim_candidate : ℕ → Option ScanJob → Tx (Option ScanJob)
unfolding claim
claim_candidate now none = pure none
claim_candidate now (some job) = do
  won ← gets (λ db. (claim now job.id db.jobs).0)
  change (λ db. record db { jobs = (claim now job.id db.jobs).1 })
  pure won

unfoldable pub claim_next_job : ℕ → Tx (Option ScanJob)
unfolding best claim_candidate
claim_next_job now = do candidate ← gets (λ db. best now db.jobs); claim_candidate now candidate

abbrev pub stale_claim_minutes : ℕ
stale_claim_minutes = 15

-- claimed_at < now - stale_minutes
abbrev pub is_stale : ℕ → ℕ → ScanJob → Bool
is_stale stale_minutes now job =
    is_running job.status
    && elim job.claimed_at [ none ↦ false | some t ↦ ltb (t + stale_minutes * 60) now ]

unfoldable pub requeued : ScanJob → ScanJob
requeued job = record job {
  status = queued;
  claimed_at = none;
  started_at = none;
  error_message = some (text "requeued after stale claim (worker restart)");
}

unfoldable pub requeue_stale_jobs : ℕ → ℕ → Tx ℕ
unfolding requeued
requeue_stale_jobs stale_minutes now db = (
  ok (count_if (is_stale stale_minutes now) db.jobs),
  record db { jobs = modify_all (is_stale stale_minutes now) requeued db.jobs },
)

-- `retry_after if retry_after and retry_after > 0 else 60`, in whole seconds
abbrev pub retry_delay : Option ℕ → ℕ
retry_delay none = 60
retry_delay (some zero) = 60
retry_delay (some (suc n)) = suc n

unfoldable pub rate_limited : ℕ → Option ℕ → ScanJob → ScanJob
rate_limited now retry_after job = record job {
  status = queued;
  claimed_at = none;
  started_at = none;
  next_attempt_at = some (now + retry_delay retry_after);
  error_message =
      some (text "rate limited; retry after " ++ show (retry_delay retry_after) ++ text "s");
}

unfoldable pub reenqueue_rate_limited : ℕ → ℕ → Option ℕ → Tx (Unit {0})
unfolding rate_limited
reenqueue_rate_limited now job_id retry_after =
    change (λ db. record db {
      jobs = modify (λ j. j.id == job_id) (rate_limited now retry_after) db.jobs;
    })
