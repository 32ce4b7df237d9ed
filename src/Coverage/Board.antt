-- ===== src/Coverage/Board.antt =====
-- The board as its readers see it, a status for each pair of an entry and a repository, and what
-- apply_transition of core/coverage.py does to it.
use patchline.Prelude.{
  ℕ, ◌≤◌, ◌≡◌, refl, Bool, true, ◌&&◌, ◌||◌, Option, none, some, List, [], ◌∷◌, ◌++◌, arith, ◌==◌,
  find, find-append, count_if, count_if-append, find-none-count_if, Bool-cases, inl, inr,
  if◌then◌else◌,
}
use patchline.Models.{Status, not_scanned, CoverageState, Database}
use patchline.Query.{modify, count_if-modify}
use patchline.Tx.{is_ok}
use patchline.Coverage.{
  same_status, can_transition, is_pair, Transition, initial_row, ensure_row, moved,
  write_transition, apply_transition,
}
use patchline.Coverage.Machine.{same_status_eq}

-- What a reader finds for a pair: a pair with no row is not scanned.
abbrev pub status_in : Option CoverageState → Status
status_in none = not_scanned
status_in (some row) = row.status

abbrev pub status_of : List CoverageState → ℕ → ℕ → Status
status_of rows entry repo = status_in (find (is_pair entry repo) rows)

-- The contract of a write: the same status again, or a legal transition.
abbrev pub is_allowed : Status → Status → Bool
is_allowed from to = same_status from to || can_transition from to

pair_eq : (a b c d : ℕ) → (a == c && b == d) ≡ true → (a ≡ c) × (b ≡ d)
pair_eq a b c d h = ground arith

module _ (now : ℕ) (t : Transition) where
  is_pair-moved : (e r : ℕ) (row : CoverageState) → is_pair e r (moved now t row) ≡ is_pair e r row
  unfolding moved
  is_pair-moved e r row = refl

  -- A legal write is seen at its own pair, and at no other.
  status_of-moved :
      (e r : ℕ) (rows : List CoverageState) {row : CoverageState}
      → find (is_pair t.entry_id t.repository_id) rows ≡ some row
      → status_of (modify (is_pair t.entry_id t.repository_id) (moved now t) rows) e r
        ≡ (if t.entry_id == e && t.repository_id == r then t.to_status else status_of rows e r)
  unfolding moved find modify
  status_of-moved e r [] found = cc
  status_of-moved e r (x ∷ xs) {row} found =
      elim (Bool-cases (is_pair t.entry_id t.repository_id x)) [
        | inl p ↦ ground (arith, p)
        | inr p ↦ ground (arith, p, status_of-moved e r xs {row = row})
      ]

  status_of-initial_row :
      (e r : ℕ) (rows : List CoverageState)
      → status_of (rows ++ initial_row now t.entry_id t.repository_id rows ∷ []) e r
        ≡ status_of rows e r
  unfolding initial_row find
  status_of-initial_row e r rows = rw find-append (ground arith)

  find-initial_row :
      (rows : List CoverageState)
      → find (is_pair t.entry_id t.repository_id) rows ≡ none
      → find
          (is_pair t.entry_id t.repository_id)
          (rows ++ initial_row now t.entry_id t.repository_id rows ∷ [])
        ≡ some (initial_row now t.entry_id t.repository_id rows)
  unfolding initial_row find
  find-initial_row rows h = rw (find-append, h) (ground arith)

  count-initial_row :
      (e r : ℕ) (rows : List CoverageState)
      → find (is_pair t.entry_id t.repository_id) rows ≡ none
      → count_if (is_pair e r) rows ≤ 1
      → count_if (is_pair e r) (rows ++ initial_row now t.entry_id t.repository_id rows ∷ []) ≤ 1
  unfolding initial_row count_if
  count-initial_row e r rows h u = elim (Bool-cases (t.entry_id == e && t.repository_id == r)) [
    | inl k ↦
        let (p, q) = pair_eq t.entry_id t.repository_id e r k in
        rw (count_if-append, k, ← p, ← q, find-none-count_if _ rows h) (omega arith)
    | inr k ↦ rw (count_if-append, k) (omega arith)
  ]

-- What apply_transition has in hand once the row exists.
pub record IsEnsured (t : Transition) (rows : List CoverageState) (row : CoverageState)
    (rows' : List CoverageState) : Type 0 where
  pub found : find (is_pair t.entry_id t.repository_id) rows' ≡ some row
  pub unchanged : (e r : ℕ) → status_of rows' e r ≡ status_of rows e r
  pub was : row.status ≡ status_of rows t.entry_id t.repository_id
  pub unique :
      ((e r : ℕ) → count_if (is_pair e r) rows ≤ 1) → (e r : ℕ) → count_if (is_pair e r) rows' ≤ 1

pub ensure_row-IsEnsured :
    (now : ℕ) (t : Transition) (rows : List CoverageState) (o : Option CoverageState)
    → find (is_pair t.entry_id t.repository_id) rows ≡ o
    → let (row, rows') = ensure_row now t.entry_id t.repository_id o rows in
      IsEnsured t rows row rows'
unfolding ensure_row
ensure_row-IsEnsured now t rows none h = record {
  found = find-initial_row now t rows h;
  unchanged = λ e r. status_of-initial_row now t e r rows;
  was = rw h (unfold initial_row in refl);
  unique = λ u e r. count-initial_row now t e r rows h (u e r);
}
ensure_row-IsEnsured now t rows (some row) h = record {
  found = h;
  unchanged = λ e r. refl;
  was = rw h;
  unique = λ u. u;
}

module _ (now : ℕ) (t : Transition) (db : Database) (row : CoverageState)
    (rows : List CoverageState) (h : IsEnsured t db.coverage row rows) where
  board-write_transition :
      (e r : ℕ)
      → status_of (write_transition now t row rows db).1.coverage e r ≡ (
          if is_allowed row.status t.to_status && (t.entry_id == e && t.repository_id == r)
          then t.to_status
          else status_of db.coverage e r)
  unfolding write_transition
  board-write_transition e r = elim (Bool-cases (t.entry_id == e && t.repository_id == r)) [
    | inl k ↦
        let (p, q) = pair_eq t.entry_id t.repository_id e r k in
        let was : row.status ≡ status_of db.coverage e r = rw (← p, ← q) h.was in
        ground (
          arith,
          k,
          was,
          same_status_eq row.status t.to_status,
          status_of-moved now t e r rows h.found,
          h.unchanged e r,
        )
    | inr k ↦ ground (arith, k, status_of-moved now t e r rows h.found, h.unchanged e r)
  ]

  unique-write_transition :
      ((e r : ℕ) → count_if (is_pair e r) db.coverage ≤ 1)
      → (e r : ℕ) → count_if (is_pair e r) (write_transition now t row rows db).1.coverage ≤ 1
  unfolding write_transition
  unique-write_transition u e r =
      let same =
        count_if-modify (is_pair t.entry_id t.repository_id) (is_pair e r) (moved now t) rows
          (λ x _. is_pair-moved now t e r x) in
      ground (arith, same, h.unique u e r)

  answer-write_transition :
      is_ok (write_transition now t row rows db).0 ≡ is_allowed row.status t.to_status
  unfolding write_transition
  answer-write_transition = ground arith

-- uq_coverage_entry_repo: at most one row for each pair.
abbrev pub IsUnique : Database → Type 0
IsUnique db = (e r : ℕ) → count_if (is_pair e r) db.coverage ≤ 1

module _ (now : ℕ) (t : Transition) (db : Database) where
  -- The effect on the board, on every branch. The call succeeds exactly if the contract allows the
  -- write, the status again or a legal transition. Then the pair has the new status and every other
  -- pair the one that it had; if the call is refused, no pair changes.
  pub board-apply_transition :
      (is_ok (apply_transition now t db).0
        ≡ is_allowed (status_of db.coverage t.entry_id t.repository_id) t.to_status)
      × ((e r : ℕ)
          → status_of (apply_transition now t db).1.coverage e r ≡ (
              if is_allowed (status_of db.coverage t.entry_id t.repository_id) t.to_status
                && (t.entry_id == e && t.repository_id == r)
              then t.to_status
              else status_of db.coverage e r))
  unfolding apply_transition
  board-apply_transition =
      let h =
        ensure_row-IsEnsured now t db.coverage
          (find (is_pair t.entry_id t.repository_id) db.coverage) refl in
      rw (← h.was) (answer-write_transition now t db _ _ h, board-write_transition now t db _ _ h)

  -- No call makes a second row for a pair.
  pub apply_transition-IsUnique : IsUnique db → IsUnique (apply_transition now t db).1
  unfolding apply_transition
  apply_transition-IsUnique u =
      unique-write_transition now t db _ _ (ensure_row-IsEnsured now t db.coverage _ refl) u
