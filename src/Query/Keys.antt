-- ===== src/Query/Keys.antt =====
-- Primary keys: the next key is new, and only an insertion moves it.
use patchline.Prelude.{
  ℕ, suc, ◌≡◌, refl, ◌≤◌, ◌<◌, max, List, [], ◌∷◌, ◌++◌, Bool, true, false, some, All, find,
  count_if, arith, ◌==◌, Bool-cases, inl, inr,
}
use patchline.Models.{Table}
use patchline.Query.{next_id, modify}

module _ {A : Type 0} where
  -- Nothing counted: every item fails the test.
  pub count_if_zero : (p : A → Bool) (xs : List A) → count_if p xs ≡ 0 → All (λ x. p x ≡ false) xs
  unfolding count_if
  count_if_zero p [] h = tt
  count_if_zero p (x ∷ xs) h = (ground arith, count_if_zero p xs (ground arith))

  -- What is found is counted.
  pub count_if-find :
      (p q : A → Bool) (xs : List A) {x : A} → find p xs ≡ some x → q x ≡ true → 1 ≤ count_if q xs
  unfolding count_if find
  count_if-find p q [] h k = cc
  count_if-find p q (y ∷ xs) {x} h k = elim (Bool-cases (p y)) [
    | inl e ↦ ground (arith, e)
    | inr e ↦ ground (arith, e, count_if-find p q xs {x = x})
  ]

module _ {A : Type 0} ⦃t : Table A⦄ where
  pub next_id-append :
      (xs : List A) (x : A) → next_id (xs ++ x ∷ []) ≡ max (next_id xs) (suc (t.id x))
  unfolding next_id
  next_id-append [] x = omega arith
  next_id-append (y ∷ xs) x = omega (arith, next_id-append xs x)

  pub next_id_fresh : (xs : List A) → All (λ x. t.id x < next_id xs) xs
  unfolding next_id
  next_id_fresh xs = go xs (next_id xs) (omega arith)
    where
      go : (ys : List A) (n : ℕ) → next_id ys ≤ n → All (λ x. t.id x < n) ys
      go [] n h = tt
      go (y ∷ ys) n h = (omega arith, go ys n (omega arith))

  pub next_id-modify :
      (p : A → Bool) (f : A → A) (xs : List A)
      → ((x : A) → t.id (f x) ≡ t.id x)
      → next_id (modify p f xs) ≡ next_id xs
  unfolding next_id modify
  next_id-modify p f [] keep = refl
  next_id-modify p f (x ∷ xs) keep = elim (Bool-cases (p x)) [
    | inl e ↦ rw (e, keep x)
    | inr e ↦ rw e (omega (arith, next_id-modify p f xs keep))
  ]

  -- No row has a key from the next one on.
  pub count_if-next_id : (xs : List A) (n : ℕ) → next_id xs ≤ n → count_if (λ x. t.id x == n) xs ≡ 0
  unfolding count_if next_id
  count_if-next_id [] n h = refl
  count_if-next_id (x ∷ xs) n h = ground (arith, count_if-next_id xs n)
