-- ===== src/Scanning/Start.antt =====
-- The first transaction of execute_scan_job: the guards, and what the network phase needs.
use patchline.Prelude.{
  ℕ, Text, text, ◌==◌, Option, none, some, List, ◌++◌, find, reverse, if◌then◌else◌,
}
use patchline.Models.{
  Database, ScanJob, JobStatus, Purpose, Repository, ChangelogEntry, DerivedPattern,
  ConnectionState, active, suspended, removed, Status, job_table, repository_table, entry_table,
  installation_table,
}
use patchline.Query.{get, modify}
use patchline.Tx.{Tx, pure, gets, change, ◌>>=◌, ◌>>◌}
use patchline.Coverage.{is_pair}
use patchline.Jobs.Row.{is_active}

-- What execute_scan_job returns.
pub data Outcome : Type 0 where
  missing failed queued done : Outcome

-- What the first transaction reads for the rest: the locals of execute_scan_job.
pub record Context : Type 0 where
  pub job_id : ℕ
  pub entry_id : ℕ
  pub repo_id : ℕ
  pub repo_full_name : Text
  pub branch : Text
  pub language : Text
  pub pattern_json : Text
  pub purpose : Purpose
  pub prior_status : Option Status
  -- repo_installation_id
  pub installation_id : Option ℕ

pub data Start : Type 0 where
  stop : Outcome → Start
  go : Context → Start

unfoldable pub failed_job : ℕ → Text → ScanJob → ScanJob
failed_job now message job = record job {
  status = JobStatus.failed;
  error_message = some message;
  completed_at = some now;
}

-- job.status = "failed", with a message and the time
unfoldable pub fail_job : ℕ → ℕ → Text → Tx (Unit {0})
unfolding failed_job
fail_job now job_id message =
    change
      (λ db. record db { jobs = modify (λ j. j.id == job_id) (failed_job now message) db.jobs })

unfoldable pub refuse : ℕ → ℕ → Text → Tx Start
unfolding fail_job
refuse now job_id message = do fail_job now job_id message; pure (stop failed)

unfoldable pub state_word : ConnectionState → Text
unfolding text
state_word active = text "active"
state_word suspended = text "suspended"
state_word removed = text "removed"

-- order_by(DerivedPattern.id.desc()).first(): rows are kept in the order of their keys.
unfoldable pub latest_pattern : ℕ → List DerivedPattern → Option DerivedPattern
latest_pattern entry rows = find (λ r. r.entry_id == entry) (reverse rows)

abbrev installation_of : Database → Repository → Option ℕ
installation_of db repo = elim (get repo.installation_id db.installations) [
  | none ↦ none
  | some inst ↦ some inst.github_installation_id
]

abbrev prior_of : Purpose → Database → ℕ → ℕ → Option Status
prior_of Purpose.rescan db entry repo = elim (find (is_pair entry repo) db.coverage) [
  | none ↦ none
  | some row ↦ some row.status
]
prior_of _ db entry repo = none

unfoldable pub context : Database → ScanJob → Repository → ChangelogEntry → DerivedPattern → Context
context db job repo entry pattern = record {
  job_id = job.id;
  entry_id = entry.id;
  repo_id = repo.id;
  repo_full_name = repo.full_name;
  branch = job.branch;
  language = entry.language;
  pattern_json = pattern.pattern_json;
  purpose = job.purpose;
  prior_status = prior_of job.purpose db entry.id repo.id;
  installation_id = installation_of db repo;
}

unfoldable pub start_with_pattern :
    ℕ → ScanJob → Repository → ChangelogEntry → Option DerivedPattern → Tx Start
unfolding refuse context
start_with_pattern now job repo entry none =
    refuse now job.id (text "no derived patterns for entry")
start_with_pattern now job repo entry (some pattern) =
    gets (λ db. go (context db job repo entry pattern))

unfoldable pub start_with : ℕ → ScanJob → Option Repository → Option ChangelogEntry → Tx Start
unfolding start_with_pattern
start_with now job (some repo) (some entry) =
    if is_active repo.connection_state
    then (do
      pattern ← gets (λ db. latest_pattern entry.id db.patterns)
      start_with_pattern now job repo entry pattern)
    else refuse now job.id (text "repository connection_state=" ++ state_word repo.connection_state)
start_with now job _ _ = refuse now job.id (text "repository or entry missing")

unfoldable pub start_job : ℕ → Option ScanJob → Tx Start
unfolding start_with
start_job now none = pure (stop missing)
start_job now (some job) = do
  repo ← gets (λ db. get job.repository_id db.repositories)
  entry ← gets (λ db. get job.entry_id db.entries)
  start_with now job repo entry

unfoldable pub start : ℕ → ℕ → Tx Start
unfolding start_job
start now job_id = do job ← gets (λ db. get job_id db.jobs); start_job now job
