-- ===== src/Actions/Repositories/Order.antt =====
-- The order in which configure_branches saves the branches of a form.
use native.Mathlib.Omega.{arith}
use patchline.Prelude.{
  ◌==◌, ◌≡◌, ◌≤◌, refl, sym, ap, ◌∙◌, inl, inr, ◌⊎◌, Bool, true, false, not, ◌&&◌, ◌||◌, List, [],
  ◌∷◌, Text, any, same, same_iff, count_if, insert_by, sort_by, count_if-sort_by, IsSorted,
  sort_by-IsSorted, if◌then◌else◌, Bool-cases,
}
use patchline.Jobs.Branches.{branch_le, index}
use patchline.Actions.Repositories.{distinct, order_branches}

-- Is the branch the first one?
abbrev pub leads : Text → List Text → Bool
leads default [] = false
leads default (b ∷ names) = same default b

-- Behind the default branch each name stands in the form in front of the next one.
pub Follows : Text → List Text → List Text → Type 0
Follows default form [] = Unit {0}
Follows default form (b ∷ []) = Unit {0}
Follows default form (b ∷ c ∷ names) =
    ((b ≡ default) ⊎ (index b form ≤ index c form)) × Follows default form (c ∷ names)

same_sym : (a b : Text) → same a b ≡ same b a
same_sym a b = elim (Bool-cases (same a b)) [
  | inl e ↦ let k = (same_iff a b).0 e in e ∙ sym ((same_iff b a).1 (sym k))
  | inr e ↦ elim (Bool-cases (same b a)) [
    | inl f ↦ let k = (same_iff b a).0 f in let g = (same_iff a b).1 (sym k) in cc
    | inr f ↦ e ∙ sym f
  ]
]

count_if-distinct :
    (b : Text) (seen names : List Text)
    → count_if (same b) (distinct seen names)
      ≡ (if any (same b) names && not (any (same b) seen) then 1 else 0)
unfolding count_if distinct any
count_if-distinct b seen [] = refl
count_if-distinct b seen (n ∷ names) = elim (Bool-cases (same b n)) [
  | inl e ↦
      let f : any (same n) seen ≡ any (same b) seen =
        ap (λ t. any (same t) seen) (sym ((same_iff b n).0 e)) in
      let rest = count_if-distinct b (n ∷ seen) names in ground (arith, e, f, rest)
  | inr e ↦ let rest = count_if-distinct b (n ∷ seen) names in ground (arith, e, rest)
]

any-count_if :
    (b : Text) (names : List Text) → any (same b) names ≡ not (count_if (same b) names == 0)
unfolding any count_if
any-count_if b [] = refl
any-count_if b (n ∷ names) = ground (arith, any-count_if b names)

any-distinct :
    (b : Text) (names : List Text) → any (same b) (distinct [] names) ≡ any (same b) names
unfolding any
any-distinct b names =
    let k = count_if-distinct b [] names in any-count_if b (distinct [] names) ∙ ground (arith, k)

module _ (default : Text) (form : List Text) where
  abbrev le : Text → Text → Bool
  le = branch_le default form

  le_total : (b c : Text) → le b c ≡ false → le c b ≡ true
  unfolding branch_le
  le_total b c h = ground arith

  -- The default branch goes in front of every branch.
  le_default : (b c : Text) → same default b ≡ true → le b c ≡ true
  unfolding branch_le
  le_default b c h =
      let k = same_sym b default in
      elim (Bool-cases (same c default)) [
        | inl e ↦
            let same_place : index b form ≡ index c form =
              ap (λ t. index t form)
                (sym ((same_iff default b).0 h) ∙ sym ((same_iff c default).0 e)) in
            ground (arith, h, k, e, same_place)
        | inr e ↦ ground (arith, h, k, e)
      ]

  le_other : (b c : Text) → same default b ≡ false → same default c ≡ true → le b c ≡ false
  unfolding branch_le
  le_other b c h k =
      let x = same_sym b default in let y = same_sym c default in ground (arith, h, k, x, y)

  leads-insert_by :
      (b : Text) (names : List Text)
      → leads default (insert_by le b names) ≡ (same default b || leads default names)
  unfolding insert_by
  leads-insert_by b [] = ground arith
  leads-insert_by b (c ∷ names) =
      let first = le_default b c in let behind = le_other b c in ground (arith, first, behind)

  leads-sort_by : (names : List Text) → leads default (sort_by le names) ≡ any (same default) names
  unfolding sort_by any
  leads-sort_by [] = refl
  leads-sort_by (b ∷ names) =
      leads-insert_by b (sort_by le names) ∙ ap (λ t. same default b || t) (leads-sort_by names)

  IsSorted-Follows : (names : List Text) → IsSorted le names → Follows default form names
  unfolding IsSorted Follows branch_le
  IsSorted-Follows [] h = tt
  IsSorted-Follows (b ∷ []) h = tt
  IsSorted-Follows (b ∷ c ∷ names) h =
      (here (Bool-cases (same b default)), IsSorted-Follows (c ∷ names) h.1)
    where
      here :
          (same b default ≡ true) ⊎ (same b default ≡ false)
          → (b ≡ default) ⊎ (index b form ≤ index c form)
      here (inl e) = inl ((same_iff b default).0 e)
      here (inr e) = let k = h.0 in inr (ground (arith, k, e))

  -- Each branch of the form is saved once, and nothing else.
  pub count_if-order_branches :
      (b : Text)
      → count_if (same b) (order_branches default form) ≡ (if any (same b) form then 1 else 0)
  unfolding order_branches any
  count_if-order_branches b =
      count_if-sort_by le (same b) (distinct [] form) ∙ count_if-distinct b [] form ∙ ground arith

  -- The default branch comes first, if the form names it.
  pub leads-order_branches : leads default (order_branches default form) ≡ any (same default) form
  unfolding order_branches
  leads-order_branches = leads-sort_by (distinct [] form) ∙ any-distinct default form

  -- The other branches come in the order of the form.
  pub order_branches-Follows : Follows default form (order_branches default form)
  unfolding order_branches
  order_branches-Follows = IsSorted-Follows _ (sort_by-IsSorted le le_total (distinct [] form))
