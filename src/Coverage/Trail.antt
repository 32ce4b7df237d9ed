-- ===== src/Coverage/Trail.antt =====
-- The audit log of one coverage row, replayed.
use patchline.Prelude.{
  ℕ, ◌≡◌, refl, ◌≢◌, ◌<◌, Bool, true, false, not, ◌&&◌, Option, none, some, List, [], ◌∷◌, ◌++◌,
  arith, ◌==◌, All, any, Bool-cases, inl, inr, if◌then◌else◌,
}
use patchline.Models.{Status, JobLog, remediation_pending}
use patchline.Coverage.{can_transition, same_status}
use patchline.Coverage.Machine.{is_early, early_exit}

-- The log rows of row `i`, taken in order from the status `s`: the last status, if every step is legal.
unfoldable pub replay : ℕ → Status → List JobLog → Option Status
replay i s [] = some s
replay i s (l ∷ log) =
    let mine = l.entity_id == i in
    let rest = replay i (if mine then l.status else s) log in
    if mine && not (can_transition s l.status) then none else rest

abbrev after_replay : ℕ → Option Status → List JobLog → Option Status
after_replay i none log = none
after_replay i (some s) log = replay i s log

pub replay-append :
    (i : ℕ) (s : Status) (xs ys : List JobLog)
    → replay i s (xs ++ ys) ≡ after_replay i (replay i s xs) ys
unfolding replay
replay-append i s [] ys = refl
replay-append i s (l ∷ xs) ys =
    ground (arith, replay-append i (if l.entity_id == i then l.status else s) xs ys)

-- One more log row of the row itself, for a legal step.
pub replay_step :
    (i : ℕ) (s : Status) (log : List JobLog) (l : JobLog) {from : Status}
    → replay i s log ≡ some from
    → l.entity_id ≡ i
    → can_transition from l.status ≡ true
    → replay i s (log ++ l ∷ []) ≡ some l.status
replay_step i s log l h e c = rw (replay-append, h) (unfold replay in ground arith)

-- A log row of another row is passed over.
pub replay_other :
    (i : ℕ) (s : Status) (log : List JobLog) (l : JobLog) {from : Status}
    → replay i s log ≡ some from
    → l.entity_id ≢ i
    → replay i s (log ++ l ∷ []) ≡ some from
replay_other i s log l h e = rw (replay-append, h) (unfold replay in ground arith)

-- No log row, no change.
pub replay_fresh :
    (i : ℕ) (s : Status) (log : List JobLog)
    → All (λ l. l.entity_id < i) log
    → replay i s log ≡ some s
unfolding replay
replay_fresh i s [] h = refl
replay_fresh i s (l ∷ log) h = ground (arith, h.0, replay_fresh i s log h.1)

-- Has row `i` a log row that sets the status `u`?
abbrev pub logs : ℕ → Status → List JobLog → Bool
logs i u log = any (λ l. l.entity_id == i && same_status l.status u) log

-- A replay from an early status that ends past them has set `remediation_pending`.
pub replay-logs_remediation :
    (i : ℕ) (s t : Status) (log : List JobLog)
    → replay i s log ≡ some t
    → is_early s ≡ true
    → is_early t ≡ false
    → logs i remediation_pending log ≡ true
unfolding replay any
replay-logs_remediation i s t [] h e f = ground arith
replay-logs_remediation i s t (l ∷ log) h e f = elim (Bool-cases (l.entity_id == i)) [
  | inl mine ↦ ground (arith, mine, early_exit s l.status, replay-logs_remediation i l.status t log)
  | inr other ↦ ground (arith, other, replay-logs_remediation i s t log)
]
