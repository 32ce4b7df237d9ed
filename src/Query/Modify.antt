-- ===== src/Query/Modify.antt =====
-- A change of the first row that passes a test, and what later queries see of it.
use patchline.Prelude.{
  ◌+◌, ◌≡◌, refl, List, [], ◌∷◌, Bool, true, false, some, All, find, count_if, Bool-cases, inl, inr,
  ap, if◌then◌else◌,
}
use mathlib.Core.Option

module _ {A : Type 0} where
  -- The row object that a query found is changed in place: it is the first that passes the test.
  unfoldable pub modify : (A → Bool) → (A → A) → List A → List A
  modify p f [] = []
  modify p f (x ∷ xs) = if p x then f x ∷ xs else x ∷ modify p f xs

  -- A change of all the rows that pass a test.
  unfoldable pub modify_all : (A → Bool) → (A → A) → List A → List A
  modify_all p f [] = []
  modify_all p f (x ∷ xs) = (if p x then f x else x) ∷ modify_all p f xs

  pub find-modify_self :
      (p : A → Bool) (f : A → A) (xs : List A)
      → ((x : A) → p x ≡ true → p (f x) ≡ true)
      → find p (modify p f xs) ≡ Option.map f (find p xs)
  unfolding find modify
  find-modify_self p f [] keep = refl
  find-modify_self p f (x ∷ xs) keep = elim (Bool-cases (p x)) [
    | inl e ↦ rw (e, keep x e)
    | inr e ↦ rw (e, e) (find-modify_self p f xs keep)
  ]

  pub find-modify_other :
      (p q : A → Bool) (f : A → A) (xs : List A)
      → ((x : A) → p x ≡ true → q (f x) ≡ q x)
      → ((x : A) → p x ≡ true → q x ≡ false)
      → find q (modify p f xs) ≡ find q xs
  unfolding find modify
  find-modify_other p q f [] same apart = refl
  find-modify_other p q f (x ∷ xs) same apart = elim (Bool-cases (p x)) [
    | inl e ↦ rw (e, same x e, apart x e)
    | inr e ↦ rw (e) (ap (λ r. if q x then some x else r) (find-modify_other p q f xs same apart))
  ]

  pub count_if-modify :
      (p q : A → Bool) (f : A → A) (xs : List A)
      → ((x : A) → p x ≡ true → q (f x) ≡ q x)
      → count_if q (modify p f xs) ≡ count_if q xs
  unfolding count_if modify
  count_if-modify p q f [] same = refl
  count_if-modify p q f (x ∷ xs) same = elim (Bool-cases (p x)) [
    | inl e ↦ rw (e, same x e)
    | inr e ↦ rw (e) (ap (λ n. (if q x then 1 else 0) + n) (count_if-modify p q f xs same))
  ]

  pub modify-All {κ} :
      (P : A → Type κ) (p : A → Bool) (f : A → A) (xs : List A)
      → ((x : A) → P x → P (f x))
      → All P xs
      → All P (modify p f xs)
  unfolding modify
  modify-All P p f [] keep h = h
  modify-All P p f (x ∷ xs) keep h = elim (Bool-cases (p x)) [
    | inl e ↦ rw e (keep x h.0, h.1)
    | inr e ↦ rw e (h.0, modify-All P p f xs keep h.1)
  ]
