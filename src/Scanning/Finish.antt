-- ===== src/Scanning/Finish.antt =====
-- The transactions of execute_scan_job after the network phase: the results are stored and the board is
-- told, or the failure is recorded.
use patchline.Prelude.{
  ℕ, suc, zero, Text, text, show, ◌==◌, leb, Option, none, some, List, [], ◌∷◌, ◌++◌, Bool, true,
  false, take, length, if◌then◌else◌, or_blank,
}
use patchline.Models.{
  Database, ScanJob, JobStatus, Purpose, Occurrence, Status, migrated, migration_incomplete,
  pattern_detected, no_hits, scan_failed, regression_detected, scan_complete, engine_failure,
  Regression, reintroduction, new_introduction, JobType, job_table, repository_table,
  occurrence_table,
}
use patchline.Query.{get, modify, next_id}
use patchline.Tx.{Tx, pure, raise, attribute_error, gets, change, catch, when, ◌>>=◌, ◌>>◌}
use patchline.Env.{Env}
use patchline.ConfigStore.{instance_id, record_engine_success, record_engine_failure}
use patchline.Notifications.{notice, record_notification, engine_failure_next_attempt_at}
use patchline.Coverage.{Transition, transition, apply_transition, same_status}
use patchline.Scanning.Start.{Context, fail_job}

-- OccurrenceData of adapters/engine.py
pub record OccurrenceData : Type 0 where
  pub file_path : Text
  pub line_start : ℕ
  pub line_end : ℕ
  pub snippet : Text
  pub confidence : Option Text

-- ScanResult of adapters/engine.py, with the commit that was scanned
pub record ScanResult : Type 0 where
  pub occurrences : List OccurrenceData
  pub files_examined : ℕ
  pub sha : Option Text

abbrev stored : ℕ → ℕ → OccurrenceData → Occurrence
stored job_id i occ = record {
  id = i;
  scan_job_id = job_id;
  file_path = occ.file_path;
  line_start = occ.line_start;
  line_end = occ.line_end;
  snippet = take 500 occ.snippet;
  confidence = occ.confidence;
}

unfoldable pub add_occurrences : ℕ → List OccurrenceData → List Occurrence → List Occurrence
add_occurrences job_id [] rows = rows
add_occurrences job_id (occ ∷ occs) rows =
    add_occurrences job_id occs (rows ++ stored job_id (next_id rows) occ ∷ [])

abbrev or_kept : Option Text → Option Text → Option Text
or_kept (some (c ∷ s)) old = some (c ∷ s)
or_kept _ old = old

unfoldable pub done_job : ℕ → ScanResult → ScanJob → ScanJob
done_job now result job = record job {
  occurrences_count = length result.occurrences;
  files_examined = result.files_examined;
  scanned_sha = or_kept result.sha job.scanned_sha;
  status = JobStatus.done;
  completed_at = some now;
  error_message = none;
}

-- The rows of the job, its occurrences and its repository.
unfoldable pub store_result : ℕ → Context → ScanResult → Database → Database
unfolding add_occurrences done_job
store_result now c result db = record db {
  occurrences = add_occurrences c.job_id result.occurrences db.occurrences;
  jobs = modify (λ j. j.id == c.job_id) (done_job now result) db.jobs;
  repositories =
      modify (λ r. r.id == c.repo_id) (λ r. record r { last_scan_at = some now }) db.repositories;
}

-- The status that a finished scan asks for, by the purpose of the job and the number of occurrences.
unfoldable pub finished_status : Purpose → ℕ → Option Status
finished_status Purpose.verification zero = some migrated
finished_status Purpose.verification (suc n) = some migration_incomplete
finished_status Purpose.rescan zero = none
finished_status Purpose.rescan (suc n) = some pattern_detected
finished_status _ zero = some no_hits
finished_status _ (suc n) = some pattern_detected

abbrev job_type_of : Purpose → JobType
job_type_of Purpose.verification = JobType.verification
job_type_of Purpose.rescan = JobType.rescan
job_type_of _ = JobType.scan

-- A verification that found nothing also stamps the row and clears the manual flag.
abbrev pub is_verified : Purpose → ℕ → Bool
is_verified Purpose.verification zero = true
is_verified _ _ = false

unfoldable pub finished_transition : ℕ → Context → ℕ → Status → Transition
finished_transition now c count to =
    let verified = is_verified c.purpose count in
    record (transition c.entry_id c.repo_id to (job_type_of c.purpose)) {
      verification_timestamp = if verified then some now else none;
      manual_migrated = if verified then some false else none;
    }

unfoldable pub move_board : ℕ → Context → ℕ → Option Status → Tx (Unit {0})
unfolding finished_transition
move_board now c count none = pure tt
move_board now c count (some to) = do
  apply_transition now (finished_transition now c count to)
  pure tt

abbrev regression_kind : Option Status → Regression
regression_kind none = new_introduction
regression_kind (some s) = if same_status s migrated then reintroduction else new_introduction

-- A periodic rescan that found something is reported as a regression.
unfoldable pub notify_regression : Env → Context → Purpose → ℕ → Tx (Unit {0})
notify_regression env c Purpose.rescan (suc n) = do
  instance ← instance_id env
  record_notification env instance
      (record (notice regression_detected c.entry_id c.repo_full_name (text "pattern_detected")) {
        regression_type = some (regression_kind c.prior_status);
      })
  pure tt
notify_regression env c purpose count = pure tt

unfoldable pub notify_complete : Env → Context → ℕ → Tx (Unit {0})
notify_complete env c count = do
  instance ← instance_id env
  record_notification env instance
      (notice scan_complete c.entry_id c.repo_full_name (show count ++ text " occurrences"))
  pure tt

-- A row that is gone by now is an attribute of None.
unfoldable pub or_attribute_error : {A : Type 0} → Option A → Tx A
or_attribute_error none = raise attribute_error
or_attribute_error (some row) = pure row

unfoldable pub require_job : ℕ → Tx ScanJob
unfolding or_attribute_error
require_job job_id = do job ← gets (λ db. get job_id db.jobs); or_attribute_error job

-- What the write transaction does once the job is found.
unfoldable pub store_and_tell : Env → Context → ScanResult → Tx (Unit {0})
unfolding store_result move_board notify_regression notify_complete
store_and_tell env c result = do
  record_engine_success
  change (store_result env.now c result)
  move_board env.now c (length result.occurrences)
      (finished_status c.purpose (length result.occurrences))
  notify_regression env c c.purpose (length result.occurrences)
  notify_complete env c (length result.occurrences)

-- The write transaction of a scan that succeeded.
unfoldable pub finish : Env → Context → ScanResult → Tx (Unit {0})
unfolding require_job store_and_tell
finish env c result = do require_job c.job_id; store_and_tell env c result

abbrev tells_board : Purpose → Bool
tells_board Purpose.scan = true
tells_board Purpose.manual_rescan = true
tells_board _ = false

-- _fail_coverage: a refused transition is only logged.
unfoldable pub fail_coverage : ℕ → ScanJob → Tx (Unit {0})
fail_coverage now job = when (tells_board job.purpose) (
    catch
      (do
        apply_transition now
            (record (transition job.entry_id job.repository_id scan_failed JobType.scan) {
              detail = some (take 400 (or_blank job.error_message));
            })
        pure tt)
      (λ e. pure tt))

-- _notify_engine_failure: the third failure in a row, and each one after it, is reported.
unfoldable pub notify_engine_failure : Env → ℕ → Text → Tx (Unit {0})
notify_engine_failure env entry repo = do
  failures ← record_engine_failure
  when (leb 3 failures) (do
    instance ← instance_id env
    record_notification env instance
        (record (notice engine_failure entry repo (text "unreachable")) {
          next_attempt_at = some (engine_failure_next_attempt_at env failures);
        })
    pure tt)

unfoldable pub fail_found : Env → Context → Text → Option ScanJob → Tx (Unit {0})
unfolding fail_job fail_coverage
fail_found env c message none = pure tt
fail_found env c message (some job) = do
  fail_job env.now c.job_id message
  fail_coverage env.now (record job { error_message = some message })

-- The failure transaction of the handlers of execute_scan_job.
unfoldable pub fail_scan : Env → Context → Text → Tx (Unit {0})
unfolding fail_found
fail_scan env c message = do job ← gets (λ db. get c.job_id db.jobs); fail_found env c message job

unfoldable pub count_failure : Env → Context → Option ScanJob → Tx (Unit {0})
unfolding notify_engine_failure
count_failure env c none = pure tt
count_failure env c (some job) = notify_engine_failure env c.entry_id c.repo_full_name

-- The handler of EngineError counts the failure too.
unfoldable pub fail_engine : Env → Context → Text → Tx (Unit {0})
unfolding fail_found count_failure
fail_engine env c message = do
  job ← gets (λ db. get c.job_id db.jobs)
  fail_found env c (text "engine error: " ++ message) job
  count_failure env c job
