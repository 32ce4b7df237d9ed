-- ===== src/Sound/Entries.antt =====
-- The derivation of patterns does not touch the board.
use patchline.Prelude.{ℕ, Option, none, some, List, [], ◌∷◌, Text}
use patchline.Models.{ChangelogEntry, EntryStatus}
use patchline.Tx.Respects.{Respects, Respects-bind}
use patchline.Coverage.Sound.{KeepsSound, KeepsSound-IsHistory, sound_rules}
use patchline.Sound.Services.{service_rules}
use patchline.Derivation.{
  Derivation, Derived, PatternSet, patterns_of, engine_error, other_error, set_entry,
  set_entry_status, add_pattern, accept_patterns, refuse_patterns, store_patterns,
  settle_derivation, run_derivation, derive_entry, derive_all, process_pending_derivations,
}

set_entry-IsSound :
    (id : ℕ) (s : EntryStatus) (e : Option ChangelogEntry) → Respects KeepsSound (set_entry id s e)
unfolding set_entry
set_entry-IsSound id s none = search sound_rules
set_entry-IsSound id s (some e) = search sound_rules

set_entry_status-IsSound : (id : ℕ) (s : EntryStatus) → Respects KeepsSound (set_entry_status id s)
unfolding set_entry_status
set_entry_status-IsSound id s = search (sound_rules, set_entry-IsSound)

add_pattern-IsSound :
    (id : ℕ) (p : PatternSet) (e : Option ChangelogEntry) → Respects KeepsSound (add_pattern id p e)
unfolding add_pattern
add_pattern-IsSound id p none = search sound_rules
add_pattern-IsSound id p (some e) = search sound_rules

store_patterns-IsSound :
    (id : ℕ) (language : Text) (p : PatternSet) → Respects KeepsSound (store_patterns id language p)
unfolding store_patterns accept_patterns refuse_patterns
store_patterns-IsSound id language p =
    search (service_rules, add_pattern-IsSound, set_entry_status-IsSound) depth 12

settle_derivation-IsSound :
    (id : ℕ) (language : Text) (d : Derived) → Respects KeepsSound (settle_derivation id language d)
unfolding settle_derivation
settle_derivation-IsSound id language (patterns_of p) = search (sound_rules, store_patterns-IsSound)
settle_derivation-IsSound id language engine_error =
    search (service_rules, set_entry_status-IsSound) depth 9
settle_derivation-IsSound id language other_error =
    search (service_rules, set_entry_status-IsSound) depth 9

run_derivation-IsSound :
    (engine : Derivation → Derived) (id : ℕ) (d : Option Derivation)
    → Respects KeepsSound (run_derivation engine id d)
unfolding run_derivation
run_derivation-IsSound engine id none = search sound_rules
run_derivation-IsSound engine id (some d) = search (sound_rules, settle_derivation-IsSound)

pub derive_entry-IsSound :
    (engine : Derivation → Derived) (id : ℕ) → Respects KeepsSound (derive_entry engine id)
unfolding derive_entry
derive_entry-IsSound engine id = search (sound_rules, run_derivation-IsSound)

derive_all-IsSound :
    (engine : Derivation → Derived) (ids : List ℕ) → Respects KeepsSound (derive_all engine ids)
unfolding derive_all
derive_all-IsSound engine [] = search sound_rules
derive_all-IsSound engine (id ∷ ids) =
    Respects-bind KeepsSound-IsHistory _ _ (derive_entry-IsSound engine id) (λ outcome.
      Respects-bind KeepsSound-IsHistory _ _ (derive_all-IsSound engine ids)
        (λ rest. search sound_rules))

pub process_pending_derivations-IsSound :
    (engine : Derivation → Derived) (limit : ℕ)
    → Respects KeepsSound (process_pending_derivations engine limit)
unfolding process_pending_derivations
process_pending_derivations-IsSound engine limit = search (sound_rules, derive_all-IsSound)
