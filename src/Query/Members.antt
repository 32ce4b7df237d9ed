-- ===== src/Query/Members.antt =====
-- Rows that are in a table, and queries that can only find them.
use mathlib.Core.List.{Memᴰ}
use patchline.Prelude.{
  ◌≡◌, ap, ◌≤◌, List, [], ◌∷◌, Bool, true, some, find, count_if, arith, Bool-cases, inl, inr,
}
use patchline.Query.{modify}

module _ {A : Type 0} where
  pub count_if_mem :
      (p : A → Bool) {x : A} {xs : List A} → Memᴰ x xs → p x ≡ true → 1 ≤ count_if p xs
  unfolding count_if
  count_if_mem p (Memᴰ.head e) h = ground (arith, e)
  count_if_mem p (Memᴰ.tail m) h = ground (arith, count_if_mem p m h)

  -- The only row that passes the test is the one that is found.
  pub find_mem :
      (p : A → Bool) {x : A} {xs : List A}
      → Memᴰ x xs
      → p x ≡ true
      → count_if p xs ≤ 1
      → find p xs ≡ some x
  unfolding find count_if
  find_mem p (Memᴰ.head e) h one = ground (arith, e, h)
  find_mem p (Memᴰ.tail m) h one = ground (arith, find_mem p m h, count_if_mem p m h, one)

  pub modify_mem :
      (p : A → Bool) (f : A → A) (xs : List A) {x : A}
      → find p xs ≡ some x
      → Memᴰ (f x) (modify p f xs)
  unfolding find modify
  modify_mem p f [] h = ground arith
  modify_mem p f (y ∷ xs) {x} h = elim (Bool-cases (p y)) [
    | inl e ↦ rw e (Memᴰ.head (ap f (ground (arith, h, e))))
    | inr e ↦ rw e (Memᴰ.tail (modify_mem p f xs (ground (arith, h, e))))
  ]

  pub count_if_mono :
      (p q : A → Bool) (xs : List A)
      → ((x : A) → p x ≡ true → q x ≡ true)
      → count_if p xs ≤ count_if q xs
  unfolding count_if
  count_if_mono p q [] h = omega arith
  count_if_mono p q (x ∷ xs) h = ground (arith, h x, count_if_mono p q xs h)
