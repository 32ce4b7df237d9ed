-- ===== src/Derivation/Settled.antt =====
-- A draft is settled by one call of derive_entry, whatever the engine gives or raises.
use patchline.Prelude.{ℕ, ◌≡◌, refl, ap, ◌∙◌, inl, inr, some, Text, ◌==◌, if◌then◌else◌, Bool-cases}
use mathlib.Core.Option
use patchline.Models.{Database, ChangelogEntry, EntryStatus, entry_table}
use patchline.Query.{get, modify, find-modify_self}
use patchline.Tx.{ok, pure, gets, change, session_scope, ◌>>=◌}
use patchline.ConfigStore.{
  record_engine_failure, record_engine_success, set_config_value, engine_consecutive_failures,
  get_config_value,
}
use patchline.Derivation.{
  Derivation, Derived, PatternSet, patterns_of, engine_error, other_error, DeriveOutcome, ready,
  derivation_failed, is_compatible, feedback_for_language, set_entry, set_entry_status, add_pattern,
  accept_patterns, refuse_patterns, store_patterns, settle_derivation, run_derivation,
  derivation_of, derive_entry,
}

-- What becomes of a draft in a language, for what the engine's call gives.
pub verdict : Text → Derived → DeriveOutcome
verdict language (patterns_of p) =
    if is_compatible p.language language then ready else derivation_failed
verdict language engine_error = derivation_failed
verdict language other_error = derivation_failed

pub status_after : DeriveOutcome → EntryStatus
status_after ready = EntryStatus.ready
status_after _ = EntryStatus.derivation_failed

-- What the engine is asked for an entry.
pub asked : ChangelogEntry → Database → Derivation
asked entry db = record {
  input = record {
    prior_api_shape = entry.prior_api_shape;
    target_contract = entry.target_contract;
    language = entry.language;
  };
  feedback = feedback_for_language entry.language db;
}

abbrev with_status : EntryStatus → ChangelogEntry → ChangelogEntry
with_status s e = record e { status = s }

set_found :
    (id : ℕ) (s : EntryStatus) (db : Database) {entry : ChangelogEntry}
    → get id db.entries ≡ some entry
    → get id (modify (λ e. e.id == id) (λ e. record e { status = s }) db.entries)
      ≡ some (record entry { status = s })
unfolding get
set_found id s db h =
    find-modify_self (λ e. e.id == id) (λ e. record e { status = s }) db.entries (λ x k. k)
    ∙ ap (Option.map (with_status s)) h

module _ (id : ℕ) (db : Database) {entry : ChangelogEntry}
    (h : get id db.entries ≡ some entry) where
  store_settles :
      (language : Text) (p : PatternSet)
      → ((session_scope (store_patterns id language p) db).0
          ≡ ok (verdict language (patterns_of p)))
        × (get id (session_scope (store_patterns id language p) db).1.entries
            ≡ some (record entry { status = status_after (verdict language (patterns_of p)) }))
  unfolding session_scope store_patterns accept_patterns refuse_patterns set_entry_status set_entry
      add_pattern ◌>>=◌ gets pure change record_engine_success set_config_value verdict status_after
  store_settles language p = elim (Bool-cases (is_compatible p.language language)) [
    | inl e ↦ rw e (rw h (rw h (refl, set_found id EntryStatus.ready db h)))
    | inr e ↦ rw e (rw h (refl, set_found id EntryStatus.derivation_failed db h))
  ]

  settle_settles :
      (language : Text) (d : Derived)
      → ((settle_derivation id language d db).0 ≡ ok (verdict language d))
        × (get id (settle_derivation id language d db).1.entries
            ≡ some (record entry { status = status_after (verdict language d) }))
  unfolding settle_derivation session_scope set_entry_status set_entry ◌>>=◌ gets pure change
      record_engine_failure set_config_value engine_consecutive_failures get_config_value verdict
      status_after
  settle_settles language (patterns_of p) = store_settles language p
  settle_settles language engine_error =
      rw h (refl, set_found id EntryStatus.derivation_failed db h)
  settle_settles language other_error = rw h (refl, set_found id EntryStatus.derivation_failed db h)

-- One call of derive_entry for a draft returns, whatever the engine gives or raises, and the entry is a
-- draft no more: it is ready, and so is the answer, exactly if the engine gave patterns in the entry's
-- language, or in none where that language is installed; else both say that the derivation failed.
-- Nothing else of the entry changes.
pub derive_entry_settles :
    (engine : Derivation → Derived) (id : ℕ) (db : Database) (entry : ChangelogEntry)
    → get id db.entries ≡ some entry
    → entry.status ≡ EntryStatus.draft
    → ((derive_entry engine id db).0 ≡ ok (verdict entry.language (engine (asked entry db))))
      × (get id (derive_entry engine id db).1.entries
          ≡ some (record entry {
            status = status_after (verdict entry.language (engine (asked entry db)));
          }))
unfolding derive_entry derivation_of run_derivation ◌>>=◌ gets asked
derive_entry_settles engine id db entry h s =
    rw h (rw s (settle_settles id db h entry.language (engine (asked entry db))))
