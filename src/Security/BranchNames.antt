-- ===== src/Security/BranchNames.antt =====
-- The local check of branch names (`validate_branch_names` of src/patchline/core/security.py).
use native.Mathlib.Omega.{arith}
use patchline.Prelude.{
  ◌≡◌, ◌≤◌, refl, ◌↔◌, Bool, false, List, [], ◌∷◌, ◌++◌, Text, ltb, any, strip, is_empty,
  append-empty, length, if◌then◌else◌, All,
}

pub data BranchError : Type 0 where
  too_many blank : BranchError
  control_characters : Text → BranchError

-- any(ord(ch) < 0x20 for ch in name)
unfoldable pub has_control : Text → Bool
unfolding any
has_control name = any (λ ch. ltb ch 0x20) name

unfoldable pub name_errors : Text → List BranchError
unfolding strip is_empty has_control
name_errors name =
    if is_empty (strip name)
    then blank ∷ []
    else (if has_control name then control_characters name ∷ [] else [])

unfoldable pub each_name : List Text → List BranchError
unfolding name_errors
each_name [] = []
each_name (name ∷ names) = name_errors name ++ each_name names

unfoldable pub validate_branch_names : List Text → List BranchError
unfolding each_name
validate_branch_names names =
    (if ltb 10 (length names) then too_many ∷ [] else []) ++ each_name names

-- What a branch name must be: not blank, and without control characters.
pub IsBranchName : Text → Type 0
IsBranchName name = (is_empty (strip name) ≡ false) × (has_control name ≡ false)

name_errors_iff : (name : Text) → (name_errors name ≡ []) ↔ IsBranchName name
unfolding name_errors IsBranchName
name_errors_iff name = grind arith

each_name_iff : (names : List Text) → (each_name names ≡ []) ↔ All IsBranchName names
unfolding each_name
each_name_iff [] = (λ _. tt, λ _. refl)
each_name_iff (name ∷ names) = (
  λ h.
      let (here, there) = (append-empty _ _).0 h in
      ((name_errors_iff name).0 here, (each_name_iff names).0 there),
  λ h. (append-empty _ _).1 ((name_errors_iff name).1 h.0, (each_name_iff names).1 h.1),
)

-- A list of branch names has no errors exactly when it has at most ten names and each of them is a branch
-- name: not blank, and without control characters.
pub validate_branch_names_iff :
    (names : List Text)
    → (validate_branch_names names ≡ []) ↔ ((length names ≤ 10) × All IsBranchName names)
unfolding validate_branch_names
validate_branch_names_iff names = (
  λ h. let (few, each) = (append-empty _ _).0 h in (few_iff.0 few, (each_name_iff names).0 each),
  λ h. (append-empty _ _).1 (few_iff.1 h.0, (each_name_iff names).1 h.1),
)
  where
    few_iff : ((if ltb 10 (length names) then too_many ∷ [] else []) ≡ []) ↔ (length names ≤ 10)
    few_iff = grind arith
