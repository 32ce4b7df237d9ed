-- ===== src/Sync/Recheck.antt =====
-- What a recheck leaves of the installations.
use native.Mathlib.Omega.{arith}
use mathlib.Core.Option
use patchline.Prelude.{
  ℕ, ◌≡◌, refl, ap, ◌∙◌, inl, inr, Bool, true, false, ◌==◌, ==_iff, Option, none, some, List, [],
  ◌∷◌, ◌++◌, subst, Text, text, any, find, find-append, if◌then◌else◌, Bool-cases,
}
use patchline.Models.{Database, Installation, ConnectionState, active, removed, installation_table}
use patchline.Query.{modify, modify_all, next_id, find-modify_self, find-modify_other}
use patchline.Tx.{Tx, ok, is_ok, continue, for_each, session_scope, ◌>>=◌, ◌>>◌, pure, change}
use patchline.Webhooks.Repositories.{
  RepoData, has_github_id, new_installation, ensure_installation, upsert_named, upsert_repository,
}
use patchline.Sync.Installations.{
  GithubInstallation, first_of, listed, is_gone, count_ids, recheck_installation, remove_gone,
  recheck_installations,
}

-- The connection of the installation with a key of GitHub, if there is a row of it.
abbrev pub connection : ℕ → List Installation → Option ConnectionState
unfolding find
connection i rows = Option.map (λ inst. inst.connection_state) (find (has_github_id i) rows)

-- Code that returns and leaves the installations as they are.
Spares : Tx (Unit {0}) → Type 0
Spares m =
    (db : Database)
    → (after : Database) × (m db ≡ (ok tt, after)) × (after.installations ≡ db.installations)

upsert_repository-Spares : (inst : ℕ) (d : RepoData) → Spares (upsert_repository inst d)
unfolding Spares upsert_repository upsert_named pure change
upsert_repository-Spares inst d db = go d.full_name
  where
    go :
        (o : Option Text)
        → (after : Database) × (upsert_named inst d o db ≡ (ok tt, after))
          × (after.installations ≡ db.installations)
    go none = (_, refl, refl)
    go (some []) = (_, refl, refl)
    go (some (c ∷ s)) = (_, refl, refl)

-- What follows code that returns runs on what that code has left.
after_ok :
    {A B : Type 0} (m : Tx A) (f : A → Tx B) {db after : Database} {a : A}
    → m db ≡ (ok a, after)
    → (m >>= f) db ≡ f a after
unfolding ◌>>=◌
after_ok m f h = ap (λ p. continue p.0 f p.1) h

for_each-Spares :
    {A : Type 0} (xs : List A) (f : A → Tx (Unit {0}))
    → ((x : A) → Spares (f x))
    → Spares (for_each xs f)
unfolding Spares for_each pure
for_each-Spares [] f h db = (db, refl, refl)
for_each-Spares (x ∷ xs) f h db =
    let (mid, e, k) = h x db in
    let (after, e', k') = for_each-Spares xs f h mid in
    (after, after_ok (f x) (λ _. for_each xs f) e ∙ e', k' ∙ k)

abbrev activated : Installation → Installation
activated inst = record inst { connection_state = active }

kept : (o : Option Installation) → (elim o [ none ↦ none | some x ↦ some x ]) ≡ o
kept none = refl
kept (some x) = refl

module _ (g : ℕ) (login type : Text) (rows : List Installation) where
  abbrev added : List Installation
  added = rows ++ new_installation (next_id rows) g login type ∷ []

  abbrev ensured : Option Installation → ℕ × List Installation
  ensured o = elim o [ some inst ↦ (inst.id, rows) | none ↦ (next_id rows, added) ]

  -- Behind ensure_installation there is a row of the installation.
  find-ensure :
      (inst : Installation) × (find (has_github_id g) (ensure_installation g login type rows).1
        ≡ some inst)
  unfolding ensure_installation find
  find-ensure = go (find (has_github_id g) rows) refl
    where
      go :
          (o : Option Installation)
          → find (has_github_id g) rows ≡ o
          → (inst : Installation) × (find (has_github_id g) (ensured o).1 ≡ some inst)
      go (some inst) e = (inst, e)
      go none e =
          (new_installation (next_id rows) g login type, find-append _ rows _ ∙ rw e (ground arith))

  -- The others have the rows that they had.
  find-ensure_other :
      (i : ℕ)
      → g == i ≡ false
      → find (has_github_id i) (ensure_installation g login type rows).1
        ≡ find (has_github_id i) rows
  unfolding ensure_installation find
  find-ensure_other i differ = go (find (has_github_id g) rows)
    where
      go :
          (o : Option Installation)
          → find (has_github_id i) (ensured o).1 ≡ find (has_github_id i) rows
      go (some inst) = refl
      go none =
          find-append _ rows _
          ∙ ap (λ t. elim (find (has_github_id i) rows) [ none ↦ t | some x ↦ some x ]) last
          ∙ kept (find (has_github_id i) rows)
        where
          last : find (has_github_id i) (new_installation (next_id rows) g login type ∷ []) ≡ none
          last = ground (arith, differ)

  -- An installation is active behind ensure_installation and the change, and the others are as they were.
  connection-ensure :
      (i : ℕ)
      → connection i (modify (has_github_id g) activated (ensure_installation g login type rows).1)
        ≡ (if g == i then some active else connection i rows)
  unfolding connection find
  connection-ensure i = elim (Bool-cases (g == i)) [
    | inl e ↦ rw e (
        subst
          (λ k.
            connection k
              (modify (has_github_id g) activated (ensure_installation g login type rows).1)
            ≡ some active)
          ((==_iff g i).0 e) mine)
    | inr e ↦ rw e (
        ap (Option.map (λ inst. inst.connection_state)) (
          find-modify_other (has_github_id g) (has_github_id i) activated
            (ensure_installation g login type rows).1 (λ x h. refl) (λ x h. other x e h)
          ∙ find-ensure_other i e))
  ]
    where
      mine :
          connection g
            (modify (has_github_id g) activated (ensure_installation g login type rows).1)
          ≡ some active
      mine =
          let (inst, found) = find-ensure in
          ap (Option.map (λ inst. inst.connection_state)) (
            find-modify_self (has_github_id g) activated (ensure_installation g login type rows).1
              (λ x h. h)
            ∙ ap (Option.map activated) found)

      other :
          (x : Installation) → g == i ≡ false → has_github_id g x ≡ true → has_github_id i x ≡ false
      other x e h = ground (arith, e, h)

-- Each item of GitHub's list makes its installation active, and only that one.
recheck_installation_lem :
    (g : GithubInstallation) (db : Database)
    → (after : Database) × (recheck_installation g db ≡ (ok tt, after))
      × ((i : ℕ)
          → connection i after.installations
            ≡ (if g.gh_id == i then some active else connection i db.installations))
unfolding recheck_installation Spares ◌>>=◌ for_each
recheck_installation_lem g db =
    let login = first_of g.account_login g.login (text "unknown") in
    let type = first_of g.account_type g.type (text "User") in
    let ensured = ensure_installation g.gh_id login type db.installations in
    let mid = record db {
      installations =
          modify (has_github_id g.gh_id) (λ inst. record inst { connection_state = active })
            ensured.1;
    } in
    let (after, e, k) =
      for_each-Spares (listed g.repositories) (upsert_repository ensured.0)
        (upsert_repository-Spares ensured.0) mid in
    (after, e, λ i. ap (connection i) k ∙ connection-ensure g.gh_id login type db.installations i)

abbrev lists : List GithubInstallation → ℕ → Bool
lists gs i = any (λ g. g.gh_id == i) gs

recheck_each :
    (gs : List GithubInstallation) (db : Database)
    → (after : Database) × (for_each gs recheck_installation db ≡ (ok tt, after))
      × ((i : ℕ)
          → connection i after.installations
            ≡ (if lists gs i then some active else connection i db.installations))
unfolding for_each any pure
recheck_each [] db = (db, refl, λ i. refl)
recheck_each (g ∷ gs) db =
    let (mid, e, k) = recheck_installation_lem g db in
    let (after, e', k') = recheck_each gs mid in
    (
      after,
      after_ok (recheck_installation g) (λ _. for_each gs recheck_installation) e ∙ e',
      λ i. let x = k i in let y = k' i in ground (arith, x, y),
    )

connection-gone :
    (gs : List GithubInstallation) (i : ℕ) (rows : List Installation)
    → connection i
        (modify_all (is_gone gs) (λ inst. record inst { connection_state = removed }) rows)
      ≡ (if lists gs i then connection i rows else Option.map (λ c. removed) (connection i rows))
unfolding modify_all find
connection-gone gs i [] = ground arith
connection-gone gs i (r ∷ rows) = elim (Bool-cases (has_github_id i r)) [
  | inl e ↦
      let k = (==_iff _ _).0 e in
      let all : lists gs r.github_installation_id ≡ lists gs i = ap (lists gs) k in
      elim (Bool-cases (lists gs i)) [
        | inl l ↦ rw (l, all) (rw l (rw e refl))
        | inr l ↦ rw (l, all) (rw l (rw e refl))
      ]
  | inr e ↦
      let rest = connection-gone gs i rows in
      elim (Bool-cases (lists gs r.github_installation_id)) [
        | inl l ↦ rw l (rw e rest)
        | inr l ↦ rw l (rw e rest)
      ]
]

if_listed :
    (b : Bool) (here before : Option ConnectionState)
    → here ≡ (if b then some active else before)
    → (if b then here else Option.map (λ c. removed) here)
      ≡ (if b then some active else Option.map (λ c. removed) before)
if_listed true here before h = h
if_listed false here before h = ap (Option.map (λ c. removed)) h

-- A recheck returns. Behind it every installation that GitHub lists has a row, which is active, and every other one is
-- removed if it has a row, and gets none if it has not.
pub recheck_installations_lem :
    (gs : List GithubInstallation) (db : Database) (i : ℕ)
    → (is_ok (recheck_installations gs db).0 ≡ true)
      × (connection i (recheck_installations gs db).1.installations ≡ (
          if any (λ g. g.gh_id == i) gs
          then some active
          else Option.map (λ c. removed) (connection i db.installations)))
unfolding recheck_installations session_scope remove_gone modify_all connection ◌>>=◌
recheck_installations_lem gs db i =
    let (mid, e, k) = recheck_each gs db in
    let run =
      after_ok (for_each gs recheck_installation)
        (λ _. change (remove_gone gs) >> pure (count_ids gs)) e in
    (
      ap (λ p. is_ok (session_scope (λ d. p) db).0) run,
      ap (λ p. connection i (session_scope (λ d. p) db).1.installations) run
          ∙ connection-gone gs i mid.installations
          ∙ if_listed (lists gs i) _ (connection i db.installations) (k i),
    )
