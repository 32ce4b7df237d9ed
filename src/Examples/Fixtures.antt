-- ===== src/Examples/Fixtures.antt =====
-- Small databases for the examples.
use patchline.Env.{Env}
use patchline.Jobs.Row.{new_job}
use patchline.Scanning.Start.{Context}
use patchline.Scanning.Finish.{ScanResult}
use patchline.Models.{
  JobLog, Status, migrated, remediation_pending, pattern_detected, pr_open, ScanJob, Purpose,
  Remediation, RemediationStatus, running,
}
use patchline.Prelude.{ℕ, none, some, [], ◌∷◌, text, false}
use patchline.Models.{
  Database, empty, scanning, CoverageState, JobType, Repository, unset, active, ChangelogEntry,
  EntryStatus,
}

-- One row, of entry 1 and repository 7, that is being scanned, with its log.
abbrev pub scanning_row : CoverageState
scanning_row = record {
  id = 1;
  entry_id = 1;
  repository_id = 7;
  status = scanning;
  verification_timestamp = none;
  manual_migrated = false;
  last_updated_at = 100;
}

abbrev pub scanning_board : Database
scanning_board = record empty {
  coverage = scanning_row ∷ [];
  log =
      record { id = 1; job_type = JobType.scan; entity_id = 1; status = scanning; detail = [] }
      ∷ [];
}

abbrev pub widgets : Repository
widgets = record {
  id = 7;
  installation_id = 1;
  full_name = text "acme/widgets";
  default_branch = text "main";
  primary_language = some (text "python");
  scan_branches = unset;
  connection_state = active;
  last_scan_at = none;
  deleted_at = none;
}

abbrev pub rename_entry : ChangelogEntry
rename_entry = record {
  id = 1;
  vendor_id = 1;
  title = text "Rename";
  slug = some (text "rename");
  prior_api_shape = text "get_user";
  target_contract = text "get_user_by_id";
  language = text "python";
  status = EntryStatus.ready;
  created_at = 50;
  deleted_at = none;
}

abbrev pub log_of : ℕ → Status → JobLog
log_of i s = record { id = i; job_type = JobType.scan; entity_id = 1; status = s; detail = [] }

-- The same row after a whole migration.
abbrev pub migrated_board : Database
migrated_board = record empty {
  coverage = record scanning_row { status = migrated } ∷ [];
  log =
      log_of 1 scanning
      ∷ log_of 2 pattern_detected
      ∷ log_of 3 remediation_pending
      ∷ log_of 4 pr_open
      ∷ log_of 5 migrated
      ∷ [];
}

-- A job that a worker has claimed, of entry 1 and repository 7.
abbrev pub running_job : ScanJob
running_job = record (new_job 3 1 7 (text "main") 10 90) { status = running; claimed_at = some 95 }

abbrev pub scanning_db : Database
scanning_db = record scanning_board { jobs = running_job ∷ []; repositories = widgets ∷ [] }

abbrev pub migrated_db : Database
migrated_db = record migrated_board { jobs = running_job ∷ []; repositories = widgets ∷ [] }

-- No environment variable is set, and nobody answers.
abbrev pub quiet_env : Env
quiet_env = record {
  now = 200;
  environ = λ name. none;
  uuid = λ i. text "id";
  hex = text "abc";
  draw = λ n. 0;
  post = λ i k. none;
}

abbrev pub scan_context : Context
scan_context = record {
  job_id = 3;
  entry_id = 1;
  repo_id = 7;
  repo_full_name = text "acme/widgets";
  branch = text "main";
  language = text "python";
  pattern_json = text "[]";
  purpose = Purpose.scan;
  prior_status = none;
  installation_id = none;
}

abbrev pub clean_result : ScanResult
clean_result = record { occurrences = []; files_examined = 12; sha = none }

-- A remediation that is ready and has not been confirmed.
abbrev pub ready_remediation : Remediation
ready_remediation = record {
  id = 4;
  scan_job_id = some 3;
  repository_id = 7;
  entry_id = 1;
  diff_content = some [];
  diff_sha256 = some (text "cafe");
  provenance_json = none;
  engine_run_id = none;
  status = RemediationStatus.ready;
  error_message = none;
  deleted_at = none;
}

abbrev pub ready_db : Database
ready_db = record scanning_board {
  coverage = record scanning_row { status = remediation_pending } ∷ [];
  repositories = widgets ∷ [];
  entries = rename_entry ∷ [];
  remediations = ready_remediation ∷ [];
}
