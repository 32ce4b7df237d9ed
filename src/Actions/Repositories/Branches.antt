-- ===== src/Actions/Repositories/Branches.antt =====
-- The branches that configure_branches saves are the branches that a scan reads back.
use native.Mathlib.Omega.{arith}
use patchline.Prelude.{
  count_if, ◌==◌, find, ℕ, zero, suc, ◌≡◌, ◌≤◌, refl, ap, ◌∙◌, inl, inr, Bool, true, some, List, [],
  ◌∷◌, Text, text, length, take, filter, any, same, All, insert_by, sort_by, if◌then◌else◌,
  Bool-cases,
}
use mathlib.Core.Option
use patchline.Models.{Database, Repository, branches, repository_table}
use patchline.Query.{get, modify, find-modify_self}
use patchline.Tx.{ok, pure, session_scope, ◌>>=◌}
use patchline.Web.{redirect, refused}
use patchline.Security.BranchNames.{validate_branch_names, validate_branch_names_iff}
use patchline.Jobs.Row.{is_active}
use patchline.Jobs.Branches.{branch_le, clean_branches, configured_branches}
use patchline.Actions.{Request, has_token, guarded}
use patchline.Actions.Repositories.Order.{
  leads, Follows, count_if-order_branches, leads-order_branches, order_branches-Follows,
}
use patchline.Actions.Repositories.{
  BranchAnswer, branches_of_form, distinct, order_branches, all_exist, save_branches,
  check_branches, configure_branches,
}
use patchline.Actions.Repositories.Clean.{IsClean, clean_branches-IsClean, clean_branches_kept}

distinct-All :
    (P : Text → Type 0) (seen names : List Text) → All P names → All P (distinct seen names)
unfolding distinct
distinct-All P seen [] h = tt
distinct-All P seen (b ∷ names) h = elim (Bool-cases (any (same b) seen)) [
  | inl e ↦ rw e (distinct-All P (b ∷ seen) names h.1)
  | inr e ↦ rw e (h.0, distinct-All P (b ∷ seen) names h.1)
]

length-distinct-le : (seen names : List Text) → length (distinct seen names) ≤ length names
unfolding distinct
length-distinct-le seen [] = omega arith
length-distinct-le seen (b ∷ names) = ground (arith, length-distinct-le (b ∷ seen) names)

module _ (le : Text → Text → Bool) where
  insert_by-All :
      (P : Text → Type 0) (x : Text) (xs : List Text) → P x → All P xs → All P (insert_by le x xs)
  unfolding insert_by
  insert_by-All P x [] p h = (p, h)
  insert_by-All P x (y ∷ ys) p h = elim (Bool-cases (le x y)) [
    | inl e ↦ rw e (p, h)
    | inr e ↦ rw e (h.0, insert_by-All P x ys p h.1)
  ]

  sort_by-All : (P : Text → Type 0) (xs : List Text) → All P xs → All P (sort_by le xs)
  unfolding sort_by
  sort_by-All P [] h = tt
  sort_by-All P (x ∷ xs) h = insert_by-All P x (sort_by le xs) h.0 (sort_by-All P xs h.1)

  length-insert_by : (x : Text) (xs : List Text) → length (insert_by le x xs) ≡ suc (length xs)
  unfolding insert_by
  length-insert_by x [] = refl
  length-insert_by x (y ∷ ys) = ground (arith, length-insert_by x ys)

  length-sort_by : (xs : List Text) → length (sort_by le xs) ≡ length xs
  unfolding sort_by
  length-sort_by [] = refl
  length-sort_by (x ∷ xs) = ground (arith, length-insert_by x (sort_by le xs), length-sort_by xs)

take_whole : (n : ℕ) (xs : List Text) → length xs ≤ n → take n xs ≡ xs
take_whole zero [] h = refl
take_whole zero (x ∷ xs) h = ground arith
take_whole (suc n) [] h = refl
take_whole (suc n) (x ∷ xs) h = ap (λ l. x ∷ l) (take_whole n xs (omega arith))

-- What the names saved for a repository stand for.
abbrev pub or_just : Text → List Text → List Text
or_just default [] = default ∷ []
or_just default (b ∷ names) = b ∷ names

-- At most ten clean names are read back as they were saved; none stand for the default branch.
read_back :
    (repo : Repository) (names : List Text)
    → All IsClean names
    → length names ≤ 10
    → configured_branches (record repo { scan_branches = branches names })
      ≡ or_just repo.default_branch names
unfolding configured_branches clean_branches filter
read_back repo [] h few = refl
read_back repo (b ∷ names) h few =
    rw (clean_branches_kept (b ∷ names) h) (take_whole 10 (b ∷ names) few)

order_branches_lem :
    (default : Text) (names : List Text)
    → All IsClean names
    → length names ≤ 10
    → All IsClean (order_branches default names) × (length (order_branches default names) ≤ 10)
unfolding order_branches
order_branches_lem default names h few =
    let le = branch_le default names in
    let shorter = length-distinct-le [] names in
    let same_length = length-sort_by le (distinct [] names) in
    (sort_by-All le IsClean (distinct [] names) (distinct-All IsClean [] names h), omega arith)

-- The database behind the write of the branches.
saved : ℕ → List Text → Database → Database
saved rid names db = record db {
  repositories =
      modify (λ r. r.id == rid) (λ r. record r { scan_branches = branches names }) db.repositories;
}

module _ (exists : BranchAnswer) (rid : ℕ) (names : List Text) (db : Database) (repo : Repository)
    (active : is_active repo.connection_state ≡ true)
    (all : all_exist (exists repo.full_name) names ≡ true) where
  save_branches_lem : save_branches exists rid names (some repo) db ≡ (
    ok (redirect (text "/repositories?saved=1")),
    saved rid (order_branches repo.default_branch names) db,
  )
  unfolding save_branches saved ◌>>=◌
  save_branches_lem = rw active (rw all refl)

  check_branches_lem :
      get rid db.repositories ≡ some repo
      → check_branches exists rid names [] db ≡ (
        ok (redirect (text "/repositories?saved=1")),
        saved rid (order_branches repo.default_branch names) db,
      )
  unfolding check_branches session_scope ◌>>=◌ find
  check_branches_lem found =
      ap (λ r. session_scope (save_branches exists rid names r) db) found
      ∙ ap (λ p. session_scope (λ d. p) db) save_branches_lem

configure_branches_lem :
    (exists : BranchAnswer) (request : Request) (rid : ℕ) (db : Database)
    → has_token request ≡ true
    → validate_branch_names (branches_of_form request) ≡ []
    → configure_branches exists request rid db
      ≡ check_branches exists rid (branches_of_form request) [] db
unfolding configure_branches guarded
configure_branches_lem exists request rid db token valid =
    ap
      (λ b.
        (if b
            then check_branches exists rid (branches_of_form request)
                (validate_branch_names (branches_of_form request))
            else pure (refused 403))
          db)
      token
    ∙ ap (λ es. check_branches exists rid (branches_of_form request) es db) valid

-- What is read back of the repository that the write has changed.
get-saved :
    (rid : ℕ) (names : List Text) (db : Database) (repo : Repository)
    → get rid db.repositories ≡ some repo
    → All IsClean names
    → length names ≤ 10
    → Option.map configured_branches (get rid (saved rid names db).repositories)
      ≡ some (or_just repo.default_branch names)
unfolding get saved find
get-saved rid names db repo found h few =
    let f : Repository → Repository = λ r. record r { scan_branches = branches names } in
    ap (Option.map configured_branches)
      (find-modify_self (λ r. r.id == rid) f db.repositories (λ x e. e) ∙ ap (Option.map f) found)
    ∙ ap some (read_back repo names h few)

branches_of_form-IsClean : (request : Request) → All IsClean (branches_of_form request)
unfolding branches_of_form
branches_of_form-IsClean request = clean_branches-IsClean _

-- Where a request with the token of its session names at most ten branches, none of them blank or with
-- control characters, for a repository that is active, and GitHub has them all, the route saves a list of
-- names, which a scan reads back, or the default branch alone if the list is empty. Each name of the form
-- is in the list once, and no other name is; the default branch comes first exactly if the form names it,
-- and behind it the names stand in the order in which the form names them first.
pub configure_branches_saved :
    (exists : BranchAnswer) (request : Request) (rid : ℕ) (db : Database) (repo : Repository)
    → has_token request ≡ true
    → validate_branch_names (branches_of_form request) ≡ []
    → get rid db.repositories ≡ some repo
    → is_active repo.connection_state ≡ true
    → all_exist (exists repo.full_name) (branches_of_form request) ≡ true
    → let (answer, after) = configure_branches exists request rid db in
      let form = branches_of_form request in
      (answer ≡ ok (redirect (text "/repositories?saved=1")))
      × (names : List Text) × (Option.map configured_branches (get rid after.repositories)
          ≡ some (or_just repo.default_branch names))
      × ((b : Text) → count_if (same b) names ≡ (if any (same b) form then 1 else 0))
      × (leads repo.default_branch names ≡ any (same repo.default_branch) form)
      × Follows repo.default_branch form names
configure_branches_saved exists request rid db repo token valid found active all =
    let form = branches_of_form request in
    let default = repo.default_branch in
    let few = ((validate_branch_names_iff form).0 valid).0 in
    let (clean, short) = order_branches_lem default form (branches_of_form-IsClean request) few in
    let run =
      configure_branches_lem exists request rid db token valid
      ∙ check_branches_lem exists rid form db repo active all found in
    (
      ap (λ p. p.0) run,
      order_branches default form,
      ap (λ p. Option.map configured_branches (get rid p.1.repositories)) run
          ∙ get-saved rid (order_branches default form) db repo found clean short,
      count_if-order_branches default form,
      leads-order_branches default form,
      order_branches-Follows default form,
    )
