-- ===== src/Jobs/Row.antt =====
-- A row of the scan queue (src/patchline/core/jobs.py): its priorities, its states, and the tests that
-- the queries make of it.
use patchline.Prelude.{ℕ, Bool, true, false, ◌&&◌, ◌||◌, none, Text, same, ◌==◌}
use patchline.Models.{
  ScanJob, JobStatus, queued, running, Purpose, scan, verification, ConnectionState, active,
  job_table, repository_table, entry_table,
}

abbrev pub priority_user : ℕ
priority_user = 10

abbrev pub priority_rescan : ℕ
priority_rescan = 0

abbrev pub is_queued : JobStatus → Bool
is_queued queued = true
is_queued _ = false

abbrev pub is_running : JobStatus → Bool
is_running running = true
is_running _ = false

-- status.in_(["queued", "running"])
abbrev pub is_waiting : JobStatus → Bool
is_waiting s = is_queued s || is_running s

abbrev pub is_active : ConnectionState → Bool
is_active active = true
is_active _ = false

-- ScanJob(…) with the column defaults of models.py
abbrev pub new_job : ℕ → ℕ → ℕ → Text → ℕ → ℕ → ScanJob
new_job i entry repo branch priority now = record {
  id = i;
  entry_id = entry;
  repository_id = repo;
  branch = branch;
  priority = priority;
  next_attempt_at = none;
  status = queued;
  purpose = scan;
  occurrences_count = 0;
  files_examined = 0;
  scanned_sha = none;
  claimed_at = none;
  started_at = none;
  completed_at = none;
  error_message = none;
  created_at = now;
}

-- A job of this entry, repository and branch that is queued or running.
abbrev pub is_pending_scan : ℕ → ℕ → Text → ScanJob → Bool
is_pending_scan entry repo branch job =
    job.entry_id == entry
    && job.repository_id == repo
    && same job.branch branch
    && is_waiting job.status

abbrev is_verification : Purpose → Bool
is_verification verification = true
is_verification _ = false

-- A verification job of this pair that is queued or running.
abbrev pub is_pending_verification : ℕ → ℕ → ScanJob → Bool
is_pending_verification entry repo job =
    job.entry_id == entry
    && job.repository_id == repo
    && is_verification job.purpose
    && is_waiting job.status

-- A job of this pair, of any branch, that is queued or running.
abbrev pub is_pending_pair : ℕ → ℕ → ScanJob → Bool
is_pending_pair entry repo job =
    job.entry_id == entry && job.repository_id == repo && is_waiting job.status
