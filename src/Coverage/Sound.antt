-- ===== src/Coverage/Sound.antt =====
-- The invariant of the coverage board that every transaction of the program keeps: at most one row for
-- each pair, and an audit log that accounts for every status.
use patchline.Prelude.{ℕ, ◌≡◌}
use patchline.Models.{Database}
use patchline.Tx.{change}
use patchline.Tx.Respects.{Respects, IsHistory, Respects-change, respects_rules}
use patchline.Coverage.{Transition, apply_transition}
use patchline.Coverage.Board.{IsUnique, apply_transition-IsUnique}
use patchline.Coverage.Audit.{IsAudited, apply_transition-IsAudited}

pub record IsSound (db : Database) : Type 0 where
  pub unique : IsUnique db
  pub audited : IsAudited db

-- Sound before, sound after.
abbrev pub KeepsSound : Database → Database → Type 0
KeepsSound a b = IsSound a → IsSound b

pub KeepsSound-IsHistory : IsHistory KeepsSound
KeepsSound-IsHistory = record { stay = λ db h. h; go_on = λ a b c ab bc h. bc (ab h) }

pub apply_transition-IsSound :
    (now : ℕ) (t : Transition) → Respects KeepsSound (apply_transition now t)
apply_transition-IsSound now t = record {
  at = λ db h. record {
    unique = apply_transition-IsUnique now t db h.unique;
    audited = apply_transition-IsAudited now t db h.audited;
  };
}

-- A write to neither the board nor its log.
pub other_change-IsSound :
    (f : Database → Database)
    → ((db : Database) → (f db).coverage ≡ db.coverage)
    → ((db : Database) → (f db).log ≡ db.log)
    → Respects KeepsSound (change f)
other_change-IsSound f p q =
    Respects-change KeepsSound-IsHistory f
      (λ db h. record { unique = rw (p db) h.unique; audited = rw (p db, q db) h.audited })

pub ruleset sound_rules =
    (respects_rules, KeepsSound-IsHistory, apply_transition-IsSound, other_change-IsSound)
