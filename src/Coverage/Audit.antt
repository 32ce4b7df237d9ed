-- ===== src/Coverage/Audit.antt =====
-- The board and its audit log agree: for every row of the board, the log rows of that row are a walk of
-- legal transitions from the initial status to the status that the row has.
use patchline.Prelude.{
  ℕ, ◌≡◌, refl, ◌∙◌, ◌<◌, ◌≤◌, ap, Bool, true, false, Option, none, some, List, [], ◌∷◌, ◌++◌,
  arith, ◌==◌, All, All-append, All-map, All-find, find, count_if, count_if-append, Bool-cases, inl,
  inr,
}
use patchline.Models.{
  not_scanned, migrated, remediation_pending, CoverageState, JobLog, Database, coverage_table,
}
use patchline.Query.{next_id, modify, count_if-modify}
use patchline.Query.Keys.{
  count_if_zero, count_if-find, next_id-append, next_id_fresh, next_id-modify, count_if-next_id,
}
use patchline.Coverage.{
  same_status, can_transition, is_pair, Transition, initial_row, ensure_row, moved, log_row,
  write_transition, apply_transition,
}
use patchline.Coverage.Board.{ensure_row-IsEnsured}
use patchline.Coverage.Trail.{
  replay, replay_step, replay_other, replay_fresh, logs, replay-logs_remediation,
}

abbrev has_id : ℕ → CoverageState → Bool
has_id i row = row.id == i

-- The log rows of a row lead to its status.
abbrev pub IsTracked : List JobLog → CoverageState → Type 0
IsTracked log row = replay row.id not_scanned log ≡ some row.status

pub record IsAuditedBoard (rows : List CoverageState) (log : List JobLog) : Type 0 where
  pub tracked : All (IsTracked log) rows
  pub keys : (i : ℕ) → count_if (has_id i) rows ≤ 1
  pub known : All (λ l. l.entity_id < next_id rows) log

abbrev pub IsAudited : Database → Type 0
IsAudited db = IsAuditedBoard db.coverage db.log

one_key :
    (now e r : ℕ) (rows : List CoverageState) (i : ℕ)
    → count_if (has_id i) rows ≤ 1
    → count_if (has_id i) (rows ++ initial_row now e r rows ∷ []) ≤ 1
unfolding initial_row count_if
one_key now e r rows i h = rw count_if-append (ground (arith, count_if-next_id rows i))

-- A new row has no log rows yet.
initial_row-IsAuditedBoard :
    (now e r : ℕ) (rows : List CoverageState) (log : List JobLog)
    → IsAuditedBoard rows log
    → IsAuditedBoard (rows ++ initial_row now e r rows ∷ []) log
unfolding initial_row
initial_row-IsAuditedBoard now e r rows log h = record {
  tracked = All-append _ rows _ h.tracked (replay_fresh (next_id rows) not_scanned log h.known, tt);
  keys = λ i. one_key now e r rows i (h.keys i);
  known = All-map (λ l k. rw next_id-append (omega (arith, k))) log h.known;
}

ensure_row-IsAuditedBoard :
    (now e r : ℕ) (o : Option CoverageState) (rows : List CoverageState) (log : List JobLog)
    → IsAuditedBoard rows log
    → IsAuditedBoard (ensure_row now e r o rows).1 log
unfolding ensure_row
ensure_row-IsAuditedBoard now e r none rows log h = initial_row-IsAuditedBoard now e r rows log h
ensure_row-IsAuditedBoard now e r (some row) rows log h = h

module _ (now : ℕ) (t : Transition) (log : List JobLog) (l : JobLog) (row : CoverageState)
    (mine : l.entity_id ≡ row.id) (set : l.status ≡ t.to_status)
    (legal : can_transition row.status t.to_status ≡ true) where
  others-IsTracked :
      (rows : List CoverageState)
      → All (λ r. has_id row.id r ≡ false) rows
      → All (IsTracked log) rows
      → All (IsTracked (log ++ l ∷ [])) rows
  others-IsTracked [] a h = tt
  others-IsTracked (x ∷ rows) a h = (
    replay_other x.id not_scanned log l h.0 (ground (arith, mine, a.0)),
    others-IsTracked rows a.1 h.1,
  )

  moved-IsTracked :
      (rows : List CoverageState)
      → find (is_pair t.entry_id t.repository_id) rows ≡ some row
      → count_if (has_id row.id) rows ≤ 1
      → All (IsTracked log) rows
      → All
          (IsTracked (log ++ l ∷ []))
          (modify (is_pair t.entry_id t.repository_id) (moved now t) rows)
  unfolding find modify count_if moved
  moved-IsTracked [] found one h = cc
  moved-IsTracked (x ∷ rows) found one h =
      elim (Bool-cases (is_pair t.entry_id t.repository_id x)) [
        | inl p ↦
            let e : x ≡ row = ground (arith, found, p) in
            rw p (
              replay_step x.id not_scanned log l h.0 (ground (arith, mine, e))
                    (ground (arith, legal, set, e))
                  ∙ ap some set,
              others-IsTracked rows (count_if_zero _ rows (ground (arith, one, e))) h.1,
            )
        | inr p ↦
            let later : find (is_pair t.entry_id t.repository_id) rows ≡ some row =
              ground (arith, found, p) in
            let once : 1 ≤ count_if (has_id row.id) rows =
              count_if-find _ (has_id row.id) rows later (ground arith) in
            rw p (
              replay_other x.id not_scanned log l h.0 (ground (arith, one, once, mine)),
              moved-IsTracked rows later (ground (arith, one)) h.1,
            )
      ]

write_transition-IsAudited :
    (now : ℕ) (t : Transition) (db : Database) (row : CoverageState) (rows : List CoverageState)
    → find (is_pair t.entry_id t.repository_id) rows ≡ some row
    → IsAuditedBoard rows db.log
    → IsAudited (write_transition now t row rows db).1
unfolding write_transition
write_transition-IsAudited now t db row rows found h =
    elim (Bool-cases (same_status row.status t.to_status)) [
      | inl s ↦ rw s h
      | inr s ↦ elim (Bool-cases (can_transition row.status t.to_status)) [
        | inl c ↦
            rw (s, c)
              (record {
                tracked =
                    moved-IsTracked now t db.log _ row (unfold log_row in refl)
                      (unfold log_row in refl) c rows found (h.keys row.id) h.tracked;
                keys = λ i.
                    rw
                      (count_if-modify _ (has_id i) (moved now t) rows
                        (λ x _. unfold moved in refl))
                      (h.keys i);
                known =
                    rw
                      (next_id-modify (is_pair t.entry_id t.repository_id) (moved now t) rows
                        (λ x. unfold moved in refl))
                      (All-append _ db.log _ h.known
                        (unfold log_row in All-find _ _ rows found (next_id_fresh rows), tt));
              })
        | inr c ↦ rw (s, c) h
      ]
    ]

-- Every call of apply_transition, accepted or refused, keeps the board and its audit log in agreement.
pub apply_transition-IsAudited :
    (now : ℕ) (t : Transition) (db : Database)
    → IsAudited db
    → IsAudited (apply_transition now t db).1
unfolding apply_transition
apply_transition-IsAudited now t db h =
    let found = find (is_pair t.entry_id t.repository_id) db.coverage in
    write_transition-IsAudited now t db _ _
      (ensure_row-IsEnsured now t db.coverage found refl).found
      (ensure_row-IsAuditedBoard now t.entry_id t.repository_id found db.coverage db.log h)

-- On an audited board a migrated row has, in its own log, a row that set `remediation_pending`.
pub migrated_was_remediated :
    (db : Database) (p : CoverageState → Bool) (row : CoverageState)
    → IsAudited db
    → find p db.coverage ≡ some row
    → row.status ≡ migrated
    → logs row.id remediation_pending db.log ≡ true
migrated_was_remediated db p row h found m =
    replay-logs_remediation row.id not_scanned row.status db.log
      (All-find (IsTracked db.log) p db.coverage found h.tracked) refl (rw m refl)
