-- ===== src/Actions/Repositories/Clean.antt =====
-- Branch names that clean_branches leaves as they are: stripped and not empty.
use patchline.Prelude.{
  ℕ, ◌≡◌, refl, ap, ◌∙◌, inl, inr, false, ◌&&◌, List, [], ◌∷◌, Text, strip, lstrip, rstrip,
  is_space, is_empty, filter, All, Bool-cases,
}
use patchline.Models.{repository_table}
use patchline.Jobs.Branches.{clean_branches}

-- A name without white space around it, and not empty.
pub IsClean : Text → Type 0
IsClean b = (strip b ≡ b) × (is_empty b ≡ false)

rstrip_twice : (s : Text) → rstrip is_space (rstrip is_space s) ≡ rstrip is_space s
unfolding rstrip
rstrip_twice [] = refl
rstrip_twice (c ∷ s) = elim (Bool-cases (is_space c && is_empty (rstrip is_space s))) [
  | inl e ↦ rw e refl
  | inr e ↦ rw e (rw (rstrip_twice s) (rw e refl))
]

-- What starts without white space still does when its end is stripped.
lstrip-rstrip :
    (c : ℕ) (s : Text)
    → is_space c ≡ false
    → lstrip is_space (rstrip is_space (c ∷ s)) ≡ rstrip is_space (c ∷ s)
unfolding rstrip lstrip
lstrip-rstrip c s h = rw h (rw h refl)

strip_all :
    (s : Text)
    → lstrip is_space (rstrip is_space (lstrip is_space s)) ≡ rstrip is_space (lstrip is_space s)
unfolding lstrip rstrip
strip_all [] = refl
strip_all (c ∷ s) = elim (Bool-cases (is_space c)) [
  | inl e ↦ rw e (strip_all s)
  | inr e ↦ rw e (lstrip-rstrip c s e)
]

strip_twice : (s : Text) → strip (strip s) ≡ strip s
unfolding strip
strip_twice s = ap (rstrip is_space) (strip_all s) ∙ rstrip_twice (lstrip is_space s)

pub clean_branches-IsClean : (names : List Text) → All IsClean (clean_branches names)
unfolding clean_branches filter IsClean
clean_branches-IsClean [] = tt
clean_branches-IsClean (b ∷ names) = elim (Bool-cases (is_empty (strip b))) [
  | inl e ↦ rw e (clean_branches-IsClean names)
  | inr e ↦ rw e ((strip_twice b, e), clean_branches-IsClean names)
]

-- Clean names are kept as they are.
pub clean_branches_kept : (names : List Text) → All IsClean names → clean_branches names ≡ names
unfolding clean_branches filter IsClean
clean_branches_kept [] h = refl
clean_branches_kept (b ∷ names) h =
    rw (h.0.0) (rw (h.0.1) (ap (λ l. b ∷ l) (clean_branches_kept names h.1)))
