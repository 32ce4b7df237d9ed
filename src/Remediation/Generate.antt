-- ===== src/Remediation/Generate.antt =====
-- generate_remediation: from a row that is `generating` to `ready` or `generation_failed`. What the fetch
-- of the archive and the engine give, or raise, is a parameter; so are the packages that check the diff.
use patchline.Prelude.{
  ℕ, suc, ◌==◌, Option, none, some, List, [], ◌∷◌, ◌++◌, Text, text, filter, map,
}
use patchline.Models.{
  Database, Remediation, RemediationStatus, Occurrence, ChangelogEntry, Repository, ScanJob,
  remediation_pending, JobType, entry_table, repository_table, remediation_table, job_table,
}
use patchline.Query.{get, modify, next_id}
use patchline.Tx.{Tx, pure, raise, gets, change, session_scope, ◌>>=◌, ◌>>◌, value_error}
use patchline.Env.{Env}
use patchline.ConfigStore.{record_engine_success}
use patchline.Coverage.{transition, apply_transition}
use patchline.Notifications.{flush_pending}
use patchline.Scanning.Finish.{OccurrenceData, notify_engine_failure, or_attribute_error}
use patchline.Diff.Apply.{ApplyError}
use patchline.Diff.Hash.{canonical_diff_sha256}
use patchline.Languages.{Ast, get_pack}
use patchline.Derivation.{EntryInput}
use patchline.Diff.Files.{Original}
use patchline.Remediation.Validate.{
  PatchSet, Checked, valid, invalid, decode_error, validate_diff_structure,
  syntax_validate_remediation,
}

-- What is used of other packages: SHA-256, the parser of Python, unidiff if it is installed, and the text
-- of an error of a patch.
pub record Packages : Type 0 where
  pub sha256 : Text → Text
  pub parse : Text → Ast
  pub unidiff : Option (Text → PatchSet)
  pub describe : ApplyError → Text

pub data Generated : Type 0 where
  missing generation_failed ready : Generated

-- The locals that the first transaction reads for the rest.
pub record Generation : Type 0 where
  pub occurrences : List OccurrenceData
  pub input : EntryInput
  pub entry_id : ℕ
  pub repo_id : ℕ
  pub repo_full_name : Text
  pub branch : Text
  pub scanned_sha : Option Text

-- The engine's result, with the archive that was fetched and the JSON text of the provenance.
pub record GenerationResult : Type 0 where
  pub diff : Text
  pub engine_run_id : Text
  pub provenance : Option Text
  pub archive : Text → Original

-- How the fetch and the engine's call end.
pub data Attempt : Type 0 where
  generated : GenerationResult → Attempt
  engine_error : Text → Attempt
  other_error : Text → Attempt

pub data Begun : Type 0 where
  stop : Generated → Begun
  go : Generation → Begun

abbrev failed_row : Text → Remediation → Remediation
failed_row message rem = record rem {
  status = RemediationStatus.generation_failed;
  error_message = some message;
}

unfoldable pub change_remediation : ℕ → (Remediation → Remediation) → Tx (Unit {0})
change_remediation id f =
    change (λ db. record db { remediations = modify (λ r. r.id == id) f db.remediations })

-- The row, whose status and message are set; a row that is gone is an attribute of None.
unfoldable pub fail_remediation : ℕ → Text → Tx (Unit {0})
unfolding get or_attribute_error change_remediation
fail_remediation id message = do
  rem ← gets (λ db. get id db.remediations)
  or_attribute_error rem
  change_remediation id (failed_row message)

abbrev occurrence_data : Occurrence → OccurrenceData
occurrence_data o = record {
  file_path = o.file_path;
  line_start = o.line_start;
  line_end = o.line_end;
  snippet = o.snippet;
  confidence = o.confidence;
}

-- `if rem.scan_job_id`: a key of zero counts as none.
unfoldable pub occurrences_of : Option ℕ → List Occurrence → List OccurrenceData
unfolding filter
occurrences_of (some (suc i)) rows = map occurrence_data (filter (λ o. o.scan_job_id == suc i) rows)
occurrences_of _ rows = []

abbrev sha_of : Option ScanJob → Option Text
sha_of none = none
sha_of (some job) = job.scanned_sha

unfoldable pub scanned_sha_of : Option ℕ → List ScanJob → Option Text
unfolding get
scanned_sha_of (some (suc i)) jobs = sha_of (get (suc i) jobs)
scanned_sha_of _ jobs = none

unfoldable pub generation : Database → Remediation → ChangelogEntry → Repository → Generation
unfolding occurrences_of scanned_sha_of
generation db rem entry repo = record {
  occurrences = occurrences_of rem.scan_job_id db.occurrences;
  input = record {
    prior_api_shape = entry.prior_api_shape;
    target_contract = entry.target_contract;
    language = entry.language;
  };
  entry_id = entry.id;
  repo_id = repo.id;
  repo_full_name = repo.full_name;
  branch = repo.default_branch;
  scanned_sha = scanned_sha_of rem.scan_job_id db.jobs;
}

unfoldable pub begin_with : Remediation → Option ChangelogEntry → Option Repository → Tx Begun
unfolding generation change_remediation
begin_with rem (some entry) (some repo) = gets (λ db. go (generation db rem entry repo))
begin_with rem _ _ = do
  change_remediation rem.id (failed_row (text "entry or repository missing"))
  pure (stop generation_failed)

unfoldable pub begin_row : Option Remediation → Tx Begun
unfolding get begin_with
begin_row none = pure (stop missing)
begin_row (some rem) = do
  entry ← gets (λ db. get rem.entry_id db.entries)
  repo ← gets (λ db. get rem.repository_id db.repositories)
  begin_with rem entry repo

-- The first transaction.
unfoldable pub begin_generation : ℕ → Tx Begun
unfolding get begin_row
begin_generation id = do rem ← gets (λ db. get id db.remediations); begin_row rem

-- The try block around the two checks: the message of a RemediationFailure, or the exception that leaves.
abbrev judge : Option Text → Checked → Checked
judge (some message) syntax = invalid message
judge none valid = valid
judge none (invalid message) = invalid (text "syntax validation failed: " ++ message)
judge none decode_error = decode_error

unfoldable pub check_diff : Packages → Text → GenerationResult → Checked
unfolding validate_diff_structure syntax_validate_remediation get_pack
check_diff p language result =
    judge (validate_diff_structure p.unidiff result.diff) (
      syntax_validate_remediation p.describe (get_pack p.parse language) result.archive result.diff)

abbrev pub ready_row : Packages → GenerationResult → Remediation → Remediation
unfolding canonical_diff_sha256
ready_row p result rem = record rem {
  diff_content = some result.diff;
  diff_sha256 = some (canonical_diff_sha256 p.sha256 result.diff);
  engine_run_id = some result.engine_run_id;
  provenance_json = result.provenance;
  status = RemediationStatus.ready;
  error_message = none;
}

-- The last transaction.
unfoldable pub store_remediation :
    Env → Packages → ℕ → Generation → GenerationResult → Tx (Unit {0})
unfolding get or_attribute_error change_remediation ready_row
store_remediation env p id g result = do
  rem ← gets (λ db. get id db.remediations)
  or_attribute_error rem
  change_remediation id (ready_row p result)
  record_engine_success
  apply_transition env.now (transition g.entry_id g.repo_id remediation_pending JobType.remediation)
  pure tt

-- Behind the engine's call: an exception of the checks that is no RemediationFailure leaves.
unfoldable pub settle_checked :
    Env → Packages → ℕ → Generation → GenerationResult → Checked → Tx Generated
unfolding store_remediation fail_remediation
settle_checked env p id g result valid = do
  session_scope (store_remediation env p id g result)
  pure ready
settle_checked env p id g result (invalid message) = do
  session_scope (fail_remediation id message)
  pure generation_failed
settle_checked env p id g result decode_error = raise (value_error [])

unfoldable pub settle_attempt : Env → Packages → ℕ → Generation → Attempt → Tx Generated
unfolding settle_checked check_diff fail_remediation notify_engine_failure
settle_attempt env p id g (generated result) =
    settle_checked env p id g result (check_diff p g.input.language result)
settle_attempt env p id g (engine_error message) = do
  session_scope (do
    fail_remediation id (text "engine error: " ++ message)
    notify_engine_failure env g.entry_id g.repo_full_name)
  flush_pending env
  pure generation_failed
settle_attempt env p id g (other_error message) = do
  session_scope (fail_remediation id (text "unexpected: " ++ message))
  pure generation_failed

-- `if not occurrences`, and the rest.
unfoldable pub run_occurrences :
    Env → Packages → (Generation → Attempt) → ℕ → Generation → List OccurrenceData → Tx Generated
unfolding settle_attempt fail_remediation
run_occurrences env p engine id g [] = do
  session_scope (fail_remediation id (text "no default-branch occurrences to remediate"))
  pure generation_failed
run_occurrences env p engine id g (occ ∷ occs) = settle_attempt env p id g (engine g)

unfoldable pub run_begun : Env → Packages → (Generation → Attempt) → ℕ → Begun → Tx Generated
unfolding run_occurrences
run_begun env p engine id (stop outcome) = pure outcome
run_begun env p engine id (go g) = run_occurrences env p engine id g g.occurrences

unfoldable pub generate_remediation : Env → Packages → (Generation → Attempt) → ℕ → Tx Generated
unfolding begin_generation run_begun
generate_remediation env p engine id = do
  begun ← session_scope (begin_generation id)
  run_begun env p engine id begun

-- enqueue_remediation
unfoldable pub enqueue_remediation : ℕ → ℕ → Option ℕ → Tx Remediation
enqueue_remediation entry_id repository_id scan_job_id = do
  i ← gets (λ db. next_id db.remediations)
  let row : Remediation = record {
    id = i;
    scan_job_id = scan_job_id;
    repository_id = repository_id;
    entry_id = entry_id;
    diff_content = none;
    diff_sha256 = none;
    provenance_json = none;
    engine_run_id = none;
    status = RemediationStatus.generating;
    error_message = none;
    deleted_at = none;
  }
  change (λ db. record db { remediations = db.remediations ++ row ∷ [] })
  pure row
