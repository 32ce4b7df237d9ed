-- ===== src/Prelude/Sort.antt =====
-- Python's `sorted`: a stable sort by an order test.
use mathlib.Core.Path.{◌≡◌, refl}
use mathlib.Core.Bool.{Bool, true, false}
use mathlib.Core.List.{List, [], ◌∷◌}
use native.Mathlib.Omega.{arith}
use patchline.Prelude.Tests.{Bool-cases, if◌then◌else◌}
use mathlib.Core.Logic.{inl, inr}
use patchline.Prelude.Lists.{count_if}

module _ {ℓ} {A : Type ℓ} where
  -- `le x y`: x may stand in front of y. An item goes in front of the first that is not before it.
  unfoldable pub insert_by : (A → A → Bool) → A → List A → List A
  insert_by le x [] = x ∷ []
  insert_by le x (y ∷ ys) = let rest = insert_by le x ys in if le x y then x ∷ y ∷ ys else y ∷ rest

  unfoldable pub sort_by : (A → A → Bool) → List A → List A
  unfolding insert_by
  sort_by le [] = []
  sort_by le (x ∷ xs) = insert_by le x (sort_by le xs)

  count_if-insert_by :
      (le : A → A → Bool) (p : A → Bool) (x : A) (xs : List A)
      → count_if p (insert_by le x xs) ≡ count_if p (x ∷ xs)
  unfolding insert_by count_if
  count_if-insert_by le p x [] = refl
  count_if-insert_by le p x (y ∷ ys) = ground (arith, count_if-insert_by le p x ys)

  -- Sorting keeps every item, as often as it was there.
  pub count_if-sort_by :
      (le : A → A → Bool) (p : A → Bool) (xs : List A) → count_if p (sort_by le xs) ≡ count_if p xs
  unfolding sort_by count_if
  count_if-sort_by le p [] = refl
  count_if-sort_by le p (x ∷ xs) =
      ground (arith, count_if-insert_by le p x (sort_by le xs), count_if-sort_by le p xs)

  -- Each item may stand in front of the next one.
  unfoldable pub IsSorted : (A → A → Bool) → List A → Type 0
  IsSorted le [] = Unit {0}
  IsSorted le (x ∷ []) = Unit {0}
  IsSorted le (x ∷ y ∷ ys) = (le x y ≡ true) × IsSorted le (y ∷ ys)

  module _ (le : A → A → Bool) (total : (x y : A) → le x y ≡ false → le y x ≡ true) where
    insert_behind :
        (x y : A) (ys : List A)
        → le y x ≡ true
        → IsSorted le (y ∷ ys)
        → IsSorted le (y ∷ insert_by le x ys)
    unfolding insert_by IsSorted
    insert_behind x y [] first h = (first, tt)
    insert_behind x y (z ∷ zs) first h = elim (Bool-cases (le x z)) [
      | inl e ↦ rw e (first, (e, h.1))
      | inr e ↦ rw e (h.0, insert_behind x z zs (total x z e) h.1)
    ]

    insert_by-IsSorted : (x : A) (xs : List A) → IsSorted le xs → IsSorted le (insert_by le x xs)
    unfolding insert_by IsSorted
    insert_by-IsSorted x [] h = tt
    insert_by-IsSorted x (y ∷ ys) h = elim (Bool-cases (le x y)) [
      | inl e ↦ rw e (e, h)
      | inr e ↦ rw e (insert_behind x y ys (total x y e) h)
    ]

    pub sort_by-IsSorted : (xs : List A) → IsSorted le (sort_by le xs)
    unfolding sort_by IsSorted
    sort_by-IsSorted [] = tt
    sort_by-IsSorted (x ∷ xs) = insert_by-IsSorted x (sort_by le xs) (sort_by-IsSorted xs)
