-- ===== src/Coverage.antt =====
-- The coverage board (src/patchline/core/coverage.py): the table of legal transitions, and the one
-- function that writes a status, with its row of the audit log.
pub mod Machine
pub mod Board
pub mod Audit
pub mod Trail
pub mod Sound
pub mod Effect
use patchline.Prelude.{
  ℕ, ◌+◌, Bool, true, false, ◌&&◌, ◌||◌, Option, none, some, List, [], ◌∷◌, ◌++◌, Text, text, show,
  ◌==◌, any, find, count_if, if◌then◌else◌,
}
use patchline.Models.{
  Status, not_scanned, scanning, no_hits, pattern_detected, remediation_pending, pr_open,
  pr_rejected, migrated, migration_incomplete, scan_failed, JobType, CoverageState, JobLog,
  Database, coverage_table, log_table,
}
use patchline.Query.{next_id, modify}
use patchline.Tx.{Error, invalid_transition, Result, ok, err, Tx}

-- The position in STATUSES.
abbrev pub ordinal : Status → ℕ
ordinal not_scanned = 0
ordinal scanning = 1
ordinal no_hits = 2
ordinal pattern_detected = 3
ordinal remediation_pending = 4
ordinal pr_open = 5
ordinal pr_rejected = 6
ordinal migrated = 7
ordinal migration_incomplete = 8
ordinal scan_failed = 9
ordinal Status.dispatch_failed = 10
ordinal Status.skipped_language = 11

abbrev pub statuses : List Status
statuses =
    not_scanned ∷ scanning ∷ no_hits ∷ pattern_detected ∷ remediation_pending ∷ pr_open
    ∷ pr_rejected ∷ migrated ∷ migration_incomplete ∷ scan_failed ∷ Status.dispatch_failed
    ∷ Status.skipped_language ∷ []

-- s == t
abbrev pub same_status : Status → Status → Bool
same_status s t = ordinal s == ordinal t

-- TRANSITIONS
unfoldable pub transitions : Status → List Status
transitions not_scanned = scanning ∷ Status.skipped_language ∷ []
transitions scanning = no_hits ∷ pattern_detected ∷ scan_failed ∷ Status.skipped_language ∷ []
transitions no_hits = scanning ∷ pattern_detected ∷ []
transitions pattern_detected = remediation_pending ∷ scanning ∷ []
transitions remediation_pending = pr_open ∷ Status.dispatch_failed ∷ scanning ∷ []
transitions pr_open = migrated ∷ migration_incomplete ∷ pr_rejected ∷ []
transitions pr_rejected = scanning ∷ remediation_pending ∷ []
transitions migrated = pattern_detected ∷ scanning ∷ []
transitions migration_incomplete = remediation_pending ∷ scanning ∷ migrated ∷ []
transitions scan_failed = scanning ∷ []
transitions Status.dispatch_failed = pr_open ∷ remediation_pending ∷ scanning ∷ migrated ∷ []
transitions Status.skipped_language = scanning ∷ []

unfoldable pub can_transition : Status → Status → Bool
unfolding transitions any
can_transition from to = any (λ s. same_status to s) (transitions from)

-- OPEN_CHANGE_STATUSES
abbrev pub open_change_statuses : List Status
open_change_statuses =
    pattern_detected ∷ remediation_pending ∷ pr_open ∷ pr_rejected ∷ migration_incomplete
    ∷ Status.dispatch_failed ∷ []

unfoldable pub is_open_change : Status → Bool
unfolding any
is_open_change s = any (λ t. same_status s t) open_change_statuses

-- The word that a status is stored as.
unfoldable pub status_word : Status → Text
unfolding text
status_word not_scanned = text "not_scanned"
status_word scanning = text "scanning"
status_word no_hits = text "no_hits"
status_word pattern_detected = text "pattern_detected"
status_word remediation_pending = text "remediation_pending"
status_word pr_open = text "pr_open"
status_word pr_rejected = text "pr_rejected"
status_word migrated = text "migrated"
status_word migration_incomplete = text "migration_incomplete"
status_word scan_failed = text "scan_failed"
status_word Status.dispatch_failed = text "dispatch_failed"
status_word Status.skipped_language = text "skipped_language"

-- The keyword arguments of apply_transition.
pub record Transition : Type 0 where
  pub entry_id : ℕ
  pub repository_id : ℕ
  pub to_status : Status
  pub verification_timestamp : Option ℕ
  pub manual_migrated : Option Bool
  pub job_type : JobType
  pub detail : Option Text

-- A call that leaves the optional arguments out.
abbrev pub transition : ℕ → ℕ → Status → JobType → Transition
transition entry repo to job = record {
  entry_id = entry;
  repository_id = repo;
  to_status = to;
  verification_timestamp = none;
  manual_migrated = none;
  job_type = job;
  detail = none;
}

-- filter_by(entry_id=…, repository_id=…)
abbrev pub is_pair : ℕ → ℕ → CoverageState → Bool
is_pair entry repo row = row.entry_id == entry && row.repository_id == repo

-- The row that apply_transition adds on first use.
unfoldable pub initial_row : ℕ → ℕ → ℕ → List CoverageState → CoverageState
initial_row now entry repo rows = record {
  id = next_id rows;
  entry_id = entry;
  repository_id = repo;
  status = not_scanned;
  verification_timestamp = none;
  manual_migrated = false;
  last_updated_at = now;
}

unfoldable pub ensure_row :
    ℕ → ℕ → ℕ → Option CoverageState → List CoverageState → CoverageState × List CoverageState
unfolding initial_row
ensure_row now entry repo (some row) rows = (row, rows)
ensure_row now entry repo none rows =
    let row = initial_row now entry repo rows in (row, rows ++ row ∷ [])

-- The writes to a row whose transition is legal.
unfoldable pub moved : ℕ → Transition → CoverageState → CoverageState
moved now t row = record row {
  status = t.to_status;
  last_updated_at = now;
  verification_timestamp = elim t.verification_timestamp [
    | none ↦ row.verification_timestamp
    | some stamp ↦ some stamp
  ];
  manual_migrated = elim t.manual_migrated [
    | none ↦ if same_status t.to_status migrated then false else row.manual_migrated
    | some manual ↦ manual
  ];
}

-- detail or f"coverage {from_status} -> {to_status} (entry={entry_id}, repo={repository_id})"
pub log_detail : Transition → Status → Text
log_detail t from = elim t.detail [
  | some (c ∷ s) ↦ c ∷ s
  | _ ↦
      text "coverage "
      ++ status_word from
      ++ text " -> "
      ++ status_word t.to_status
      ++ text " (entry="
      ++ show t.entry_id
      ++ text ", repo="
      ++ show t.repository_id
      ++ text ")"
]

unfoldable pub log_row : Transition → CoverageState → List JobLog → JobLog
log_row t row log = record {
  id = next_id log;
  job_type = t.job_type;
  entity_id = row.id;
  status = t.to_status;
  detail = log_detail t row.status;
}

-- What follows once the row is in hand: an idempotent no-op, a legal write with its audit row, or
-- InvalidTransition.
unfoldable pub write_transition :
    ℕ → Transition → CoverageState → List CoverageState → Tx (CoverageState × Status)
unfolding moved log_row
write_transition now t row rows db =
    if same_status row.status t.to_status
    then (ok (row, row.status), record db { coverage = rows })
    else if can_transition row.status t.to_status
    then (
      ok (moved now t row, row.status),
      record db {
        coverage = modify (is_pair t.entry_id t.repository_id) (moved now t) rows;
        log = db.log ++ log_row t row db.log ∷ [];
      },
    )
    else (err (invalid_transition row.status t.to_status), record db { coverage = rows })

-- The validated write. It returns the row and the status that the row had.
unfoldable pub apply_transition : ℕ → Transition → Tx (CoverageState × Status)
unfolding ensure_row write_transition
apply_transition now t db =
    let found = find (is_pair t.entry_id t.repository_id) db.coverage in
    let (row, rows) = ensure_row now t.entry_id t.repository_id found db.coverage in
    write_transition now t row rows db

unfoldable pub counts : List Status → List CoverageState → List (Status × ℕ)
unfolding count_if
counts [] rows = []
counts (s ∷ rest) rows = (s, count_if (λ r. same_status r.status s) rows) ∷ counts rest rows

-- rollup_counts: for each status, how many rows have it.
unfoldable pub rollup_counts : List CoverageState → List (Status × ℕ)
unfolding counts
rollup_counts rows = counts statuses rows
