-- ===== src/Derivation.antt =====
-- The derivation of an entry's patterns (src/patchline/core/derivation.py). The engine's call is a
-- parameter: what it returns or raises for its input. The latency of the call is not recorded here.
pub mod Settled
use patchline.Prelude.{
  ℕ, Bool, true, false, not, ◌+◌, ◌&&◌, Option, none, some, List, [], ◌∷◌, ◌++◌, Text, text, same,
  lower, strip, or_else, or_blank, take, ◌==◌, filter, find, if◌then◌else◌, map,
}
use patchline.Models.{
  Database, ChangelogEntry, EntryStatus, DerivedPattern, FeedbackFlag, Occurrence, ScanJob,
  entry_table, pattern_table, occurrence_table, job_table,
}
use patchline.Query.{get, modify, next_id}
use patchline.Tx.{Tx, pure, raise, gets, change, session_scope, ◌>>=◌, ◌>>◌, attribute_error}
use patchline.ConfigStore.{record_engine_failure, record_engine_success}
use patchline.Languages.{is_installed}

pub record EntryInput : Type 0 where
  pub prior_api_shape : Text
  pub target_contract : Text
  pub language : Text

pub record FeedbackSignal : Type 0 where
  pub occurrence_snippet : Text
  pub reason : Text
  pub created_at : ℕ

-- The list of patterns is kept as its JSON text.
pub record PatternSet : Type 0 where
  pub patterns : Text
  pub engine_run_id : Text
  pub language : Text

-- How the engine's call ends.
pub data Derived : Type 0 where
  patterns_of : PatternSet → Derived
  engine_error : Derived
  other_error : Derived

pub data DeriveOutcome : Type 0 where
  ready derivation_failed skipped : DeriveOutcome

abbrev is_kept : FeedbackFlag → Bool
is_kept flag = elim flag.deleted_at [ none ↦ true | some t ↦ false ]

-- The entry that a flag is about, with its occurrence: the three joins.
abbrev join_entry : Database → Occurrence → Option ScanJob → Option (Occurrence × ChangelogEntry)
join_entry db occ none = none
join_entry db occ (some job) = elim (get job.entry_id db.entries) [
  | none ↦ none
  | some entry ↦ some (occ, entry)
]

abbrev join_occurrence : Database → Option Occurrence → Option (Occurrence × ChangelogEntry)
join_occurrence db none = none
join_occurrence db (some occ) = join_entry db occ (get occ.scan_job_id db.jobs)

abbrev signal : FeedbackFlag → Occurrence → FeedbackSignal
signal flag occ = record {
  occurrence_snippet = take 500 occ.snippet;
  reason = or_blank flag.reason;
  created_at = flag.created_at;
}

abbrev signals_with :
    Text → FeedbackFlag → Option (Occurrence × ChangelogEntry) → List FeedbackSignal
signals_with language flag none = []
signals_with language flag (some (occ, entry)) =
    if same entry.language language && is_kept flag then signal flag occ ∷ [] else []

unfoldable pub signals_of : Text → Database → List FeedbackFlag → List FeedbackSignal
unfolding get same
signals_of language db [] = []
signals_of language db (flag ∷ flags) =
    signals_with language flag (join_occurrence db (get flag.occurrence_id db.occurrences))
    ++ signals_of language db flags

unfoldable pub feedback_for_language : Text → Database → List FeedbackSignal
unfolding signals_of
feedback_for_language language db = signals_of language db db.flags

-- What the first transaction reads.
pub record Derivation : Type 0 where
  pub input : EntryInput
  pub feedback : List FeedbackSignal

abbrev pub is_draft : EntryStatus → Bool
is_draft EntryStatus.draft = true
is_draft _ = false

unfoldable pub derivation_of : Option ChangelogEntry → Database → Option Derivation
unfolding feedback_for_language
derivation_of none db = none
derivation_of (some entry) db =
    if is_draft entry.status
    then some (record {
      input = record {
        prior_api_shape = entry.prior_api_shape;
        target_contract = entry.target_contract;
        language = entry.language;
      };
      feedback = feedback_for_language entry.language db;
    })
    else none

-- entry.status = …; an entry that is gone is an attribute of None.
unfoldable pub set_entry : ℕ → EntryStatus → Option ChangelogEntry → Tx (Unit {0})
set_entry id status none = raise attribute_error
set_entry id status (some entry) = change (λ db. record db {
  entries = modify (λ e. e.id == id) (λ e. record e { status = status }) db.entries;
})

unfoldable pub set_entry_status : ℕ → EntryStatus → Tx (Unit {0})
unfolding set_entry
set_entry_status id status = do entry ← gets (λ db. get id db.entries); set_entry id status entry

-- The patterns are for the language of the entry: the two tests of the last transaction.
unfoldable pub is_compatible : Text → Text → Bool
unfolding is_installed same lower strip
is_compatible [] language = is_installed language
is_compatible (c ∷ given) language =
    same (lower (strip (c ∷ given))) (lower (strip language)) && is_installed (c ∷ given)

unfoldable pub add_pattern : ℕ → PatternSet → Option ChangelogEntry → Tx (Unit {0})
add_pattern id p none = raise attribute_error
add_pattern id p (some entry) = change (λ db. record db {
  patterns =
      db.patterns
      ++ record {
        id = next_id db.patterns;
        entry_id = entry.id;
        pattern_json = p.patterns;
        engine_run_id = p.engine_run_id;
      }
        ∷ [];
})

unfoldable pub accept_patterns : ℕ → PatternSet → Tx DeriveOutcome
unfolding add_pattern set_entry_status
accept_patterns id p = do
  entry ← gets (λ db. get id db.entries)
  add_pattern id p entry
  set_entry_status id EntryStatus.ready
  pure ready

unfoldable pub refuse_patterns : ℕ → Tx DeriveOutcome
unfolding set_entry_status
refuse_patterns id = do set_entry_status id EntryStatus.derivation_failed; pure derivation_failed

unfoldable pub store_patterns : ℕ → Text → PatternSet → Tx DeriveOutcome
unfolding is_compatible accept_patterns refuse_patterns
store_patterns id language p = do
  record_engine_success
  (if is_compatible p.language language then accept_patterns id p else refuse_patterns id)

unfoldable pub settle_derivation : ℕ → Text → Derived → Tx DeriveOutcome
unfolding set_entry_status store_patterns
settle_derivation id language (patterns_of p) = session_scope (store_patterns id language p)
settle_derivation id language engine_error = do
  session_scope (do set_entry_status id EntryStatus.derivation_failed; record_engine_failure)
  pure derivation_failed
settle_derivation id language other_error = do
  session_scope (set_entry_status id EntryStatus.derivation_failed)
  pure derivation_failed

unfoldable pub run_derivation : (Derivation → Derived) → ℕ → Option Derivation → Tx DeriveOutcome
unfolding settle_derivation
run_derivation engine id none = pure skipped
run_derivation engine id (some d) = settle_derivation id d.input.language (engine d)

unfoldable pub derive_entry : (Derivation → Derived) → ℕ → Tx DeriveOutcome
unfolding get derivation_of run_derivation
derive_entry engine id = do
  begun ← gets (λ db. derivation_of (get id db.entries) db)
  run_derivation engine id begun

abbrev is_pending : ChangelogEntry → Bool
is_pending entry = is_draft entry.status && (elim entry.deleted_at [ none ↦ true | some t ↦ false ])

-- The keys of the drafts, the lowest first: rows are kept in the order of their keys.
unfoldable pub pending_entries : ℕ → Database → List ℕ
unfolding filter
pending_entries limit db = map (λ e. e.id) (take limit (filter is_pending db.entries))

abbrev was_processed : DeriveOutcome → ℕ
was_processed skipped = 0
was_processed _ = 1

unfoldable pub derive_all : (Derivation → Derived) → List ℕ → Tx ℕ
unfolding derive_entry
derive_all engine [] = pure 0
derive_all engine (id ∷ ids) = do
  outcome ← derive_entry engine id
  rest ← derive_all engine ids
  pure (was_processed outcome + rest)

unfoldable pub process_pending_derivations : (Derivation → Derived) → ℕ → Tx ℕ
unfolding pending_entries derive_all
process_pending_derivations engine limit = do
  ids ← gets (pending_entries limit)
  derive_all engine ids
