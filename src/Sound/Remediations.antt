-- ===== src/Sound/Remediations.antt =====
-- The generation of a remediation keeps the board sound.
use patchline.Prelude.{ℕ, Option, none, some, List, [], ◌∷◌, Text}
use patchline.Models.{ChangelogEntry, Repository, Remediation}
use patchline.Tx.Respects.{Respects}
use patchline.Env.{Env}
use patchline.Coverage.Sound.{KeepsSound, sound_rules}
use patchline.Sound.Services.{service_rules}
use patchline.Sound.Scan.{notify_engine_failure-IsSound}
use patchline.Scanning.Finish.{or_attribute_error, OccurrenceData}
use patchline.Remediation.Validate.{Checked, valid, invalid, decode_error}
use patchline.Remediation.Generate.{
  Packages, Generation, GenerationResult, Attempt, generated, engine_error, other_error, Begun,
  stop, go, change_remediation, fail_remediation, begin_with, begin_row, begin_generation,
  store_remediation, settle_checked, settle_attempt, run_occurrences, run_begun,
  generate_remediation, enqueue_remediation,
}

pub or_attribute_error-IsSound :
    {A : Type 0} (o : Option A) → Respects KeepsSound (or_attribute_error o)
unfolding or_attribute_error
or_attribute_error-IsSound none = search sound_rules
or_attribute_error-IsSound (some a) = search sound_rules

change_remediation-IsSound :
    (id : ℕ) (f : Remediation → Remediation) → Respects KeepsSound (change_remediation id f)
unfolding change_remediation
change_remediation-IsSound id f = search sound_rules

fail_remediation-IsSound : (id : ℕ) (m : Text) → Respects KeepsSound (fail_remediation id m)
unfolding fail_remediation
fail_remediation-IsSound id m =
    search (sound_rules, or_attribute_error-IsSound, change_remediation-IsSound)

begin_with-IsSound :
    (rem : Remediation) (entry : Option ChangelogEntry) (repo : Option Repository)
    → Respects KeepsSound (begin_with rem entry repo)
unfolding begin_with
begin_with-IsSound rem (some entry) (some repo) = search sound_rules
begin_with-IsSound rem (some entry) none = search (sound_rules, change_remediation-IsSound)
begin_with-IsSound rem none repo = search (sound_rules, change_remediation-IsSound)

begin_row-IsSound : (rem : Option Remediation) → Respects KeepsSound (begin_row rem)
unfolding begin_row
begin_row-IsSound none = search sound_rules
begin_row-IsSound (some rem) = search (sound_rules, begin_with-IsSound)

store_remediation-IsSound :
    (env : Env) (p : Packages) (id : ℕ) (g : Generation) (r : GenerationResult)
    → Respects KeepsSound (store_remediation env p id g r)
unfolding store_remediation
store_remediation-IsSound env p id g r =
    search (service_rules, or_attribute_error-IsSound, change_remediation-IsSound) depth 12

settle_checked-IsSound :
    (env : Env) (p : Packages) (id : ℕ) (g : Generation) (r : GenerationResult) (c : Checked)
    → Respects KeepsSound (settle_checked env p id g r c)
unfolding settle_checked
settle_checked-IsSound env p id g r valid = search (sound_rules, store_remediation-IsSound)
settle_checked-IsSound env p id g r (invalid m) = search (sound_rules, fail_remediation-IsSound)
settle_checked-IsSound env p id g r decode_error = search sound_rules

settle_attempt-IsSound :
    (env : Env) (p : Packages) (id : ℕ) (g : Generation) (a : Attempt)
    → Respects KeepsSound (settle_attempt env p id g a)
unfolding settle_attempt
settle_attempt-IsSound env p id g (generated r) = settle_checked-IsSound env p id g r _
settle_attempt-IsSound env p id g (engine_error m) =
    search (service_rules, fail_remediation-IsSound, notify_engine_failure-IsSound) depth 9
settle_attempt-IsSound env p id g (other_error m) = search (sound_rules, fail_remediation-IsSound)

run_occurrences-IsSound :
    (env : Env) (p : Packages) (engine : Generation → Attempt) (id : ℕ) (g : Generation)
    (occs : List OccurrenceData)
    → Respects KeepsSound (run_occurrences env p engine id g occs)
unfolding run_occurrences
run_occurrences-IsSound env p engine id g [] = search (sound_rules, fail_remediation-IsSound)
run_occurrences-IsSound env p engine id g (o ∷ occs) = settle_attempt-IsSound env p id g (engine g)

run_begun-IsSound :
    (env : Env) (p : Packages) (engine : Generation → Attempt) (id : ℕ) (b : Begun)
    → Respects KeepsSound (run_begun env p engine id b)
unfolding run_begun
run_begun-IsSound env p engine id (stop outcome) = search sound_rules
run_begun-IsSound env p engine id (go g) = run_occurrences-IsSound env p engine id g g.occurrences

pub generate_remediation-IsSound :
    (env : Env) (p : Packages) (engine : Generation → Attempt) (id : ℕ)
    → Respects KeepsSound (generate_remediation env p engine id)
unfolding generate_remediation begin_generation
generate_remediation-IsSound env p engine id =
    search (sound_rules, begin_row-IsSound, run_begun-IsSound)

pub enqueue_remediation-IsSound :
    (entry repo : ℕ) (job : Option ℕ) → Respects KeepsSound (enqueue_remediation entry repo job)
unfolding enqueue_remediation
enqueue_remediation-IsSound entry repo job = search sound_rules
