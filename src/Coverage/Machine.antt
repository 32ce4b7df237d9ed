-- ===== src/Coverage/Machine.antt =====
-- What the table of transitions of core/coverage.py allows: which statuses are reached from which.
use patchline.Prelude.{
  ℕ, zero, suc, ◌≡◌, refl, ap, sym, ◌∙◌, Bool, true, false, ◌||◌, arith, ◌⊎◌, ==_iff,
}
use patchline.Models.{
  Status, not_scanned, scanning, no_hits, pattern_detected, remediation_pending, pr_open,
  pr_rejected, migrated, migration_incomplete, scan_failed,
}
use patchline.Coverage.{ordinal, same_status, can_transition}

-- The status at a position of STATUSES.
abbrev at_ordinal : ℕ → Status
at_ordinal zero = not_scanned
at_ordinal (suc zero) = scanning
at_ordinal (suc (suc zero)) = no_hits
at_ordinal (suc (suc (suc zero))) = pattern_detected
at_ordinal (suc (suc (suc (suc zero)))) = remediation_pending
at_ordinal (suc (suc (suc (suc (suc zero))))) = pr_open
at_ordinal (suc (suc (suc (suc (suc (suc zero)))))) = pr_rejected
at_ordinal (suc (suc (suc (suc (suc (suc (suc zero))))))) = migrated
at_ordinal (suc (suc (suc (suc (suc (suc (suc (suc zero)))))))) = migration_incomplete
at_ordinal (suc (suc (suc (suc (suc (suc (suc (suc (suc zero))))))))) = scan_failed
at_ordinal (suc (suc (suc (suc (suc (suc (suc (suc (suc (suc zero)))))))))) = Status.dispatch_failed
at_ordinal _ = Status.skipped_language

at_ordinal-ordinal : (s : Status) → at_ordinal (ordinal s) ≡ s
at_ordinal-ordinal not_scanned = refl
at_ordinal-ordinal _ = refl

pub same_status_eq : (s t : Status) → same_status s t ≡ true → s ≡ t
same_status_eq s t h =
    sym (at_ordinal-ordinal s) ∙ ap at_ordinal ((==_iff _ _).0 h) ∙ at_ordinal-ordinal t

pub same_status_refl : (s : Status) → same_status s s ≡ true
same_status_refl s = ground arith

-- A walk over legal transitions.
infixr 40 ◌then◌
pub data Walk : Status → Status → Type 0 where
  here : {s : Status} → Walk s s
  ◌then◌ : {s t u : Status} → can_transition s t ≡ true → Walk t u → Walk s u

-- The initial status is never written again.
pub never_unscanned : (s : Status) → can_transition s not_scanned ≡ false
unfolding can_transition
never_unscanned not_scanned = refl
never_unscanned _ = refl

-- No status is left for itself, so an idempotent write is never taken for a transition.
pub can_transition_irrefl : (s : Status) → can_transition s s ≡ false
unfolding can_transition
can_transition_irrefl not_scanned = refl
can_transition_irrefl _ = refl

abbrev scan_then :
    {t : Status} → Walk scanning t → {s : Status} → can_transition s scanning ≡ true → Walk s t
scan_then w h = h then w

from_scanning : Walk scanning migrated
unfolding can_transition
from_scanning = ◌then◌ {t = pattern_detected} refl (
    ◌then◌ {t = remediation_pending} refl
      (◌then◌ {t = pr_open} refl (◌then◌ {t = migrated} refl here)))

-- From every status there is a walk to `migrated`: no status is a dead end.
pub migrated_reachable : (s : Status) → Walk s migrated
unfolding can_transition
migrated_reachable migrated = here
migrated_reachable pr_open = refl then here
migrated_reachable migration_incomplete = refl then here
migrated_reachable scanning = from_scanning
migrated_reachable _ = refl then from_scanning

-- The statuses that a repository can have before a remediation was ever generated for it.
abbrev pub is_early : Status → Bool
is_early not_scanned = true
is_early scanning = true
is_early no_hits = true
is_early pattern_detected = true
is_early scan_failed = true
is_early Status.skipped_language = true
is_early _ = false

-- The only way out of these is a detected pattern for which a remediation is made.
pub early_exit :
    (s t : Status)
    → is_early s ≡ true
    → can_transition s t ≡ true
    → (is_early t ≡ true) ⊎ ((s ≡ pattern_detected) × (t ≡ remediation_pending))
unfolding can_transition
early_exit not_scanned t e h = ground arith
early_exit _ t e h = ground arith

-- Does a walk pass through a status (its start not counted)?
abbrev pub passes : Status → {s t : Status} → Walk s t → Bool
passes u here = false
passes u (◌then◌ {t = m} h w) = same_status m u || passes u w
