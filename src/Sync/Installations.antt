-- ===== src/Sync/Installations.antt =====
-- recheck_installations of core/recheck.py: the rows are brought in line with what GitHub lists.
use patchline.Prelude.{
  ℕ, suc, Bool, not, Option, none, some, List, [], ◌∷◌, Text, text, ◌==◌, ◌&&◌, any, if◌then◌else◌,
}
use patchline.Models.{Database, Installation, Repository, active, removed, installation_table}
use patchline.Query.{modify, modify_all}
use patchline.Tx.{Tx, pure, gets, change, session_scope, for_each, ◌>>=◌, ◌>>◌}
use patchline.Webhooks.Repositories.{
  RepoData, upsert_repository, has_github_id, ensure_installation,
}

-- An installation that GitHub lists, and its repositories, none if that call raised. An item without a
-- key is passed over by the code and is not in the list.
pub record GithubInstallation : Type 0 where
  pub gh_id : ℕ
  pub account_login : Option Text
  pub login : Option Text
  pub account_type : Option Text
  pub type : Option Text
  pub repositories : Option (List RepoData)

-- `a or b or default`
abbrev pub first_of : Option Text → Option Text → Text → Text
first_of (some (c ∷ s)) b default = c ∷ s
first_of _ (some (c ∷ s)) default = c ∷ s
first_of _ _ default = default

abbrev pub listed : Option (List RepoData) → List RepoData
listed none = []
listed (some repos) = repos

unfoldable pub recheck_installation : GithubInstallation → Tx (Unit {0})
unfolding ensure_installation text
recheck_installation g = do
  ensured ← gets (λ db.
      ensure_installation g.gh_id (first_of g.account_login g.login (text "unknown"))
        (first_of g.account_type g.type (text "User")) db.installations)
  change (λ db. record db {
    installations =
        modify (has_github_id g.gh_id) (λ inst. record inst { connection_state = active })
          ensured.1;
  })
  for_each (listed g.repositories) (upsert_repository ensured.0)

-- Is the installation in GitHub's list?
abbrev pub is_seen : List GithubInstallation → Installation → Bool
is_seen gs inst = any (λ g. g.gh_id == inst.github_installation_id) gs

abbrev pub is_gone : List GithubInstallation → Installation → Bool
is_gone gs inst = not (is_seen gs inst)

abbrev pub belongs_to_gone : List GithubInstallation → List Installation → Repository → Bool
belongs_to_gone gs insts repo =
    any (λ inst. is_gone gs inst && inst.id == repo.installation_id) insts

-- The installations that GitHub does not list any more, and their repositories, are removed.
unfoldable pub remove_gone : List GithubInstallation → Database → Database
remove_gone gs db = record db {
  installations =
      modify_all (is_gone gs) (λ inst. record inst { connection_state = removed }) db.installations;
  repositories =
      modify_all (belongs_to_gone gs db.installations)
        (λ repo. record repo { connection_state = removed }) db.repositories;
}

-- len(seen_ids): each key is counted where it stands last.
unfoldable pub count_ids : List GithubInstallation → ℕ
count_ids [] = 0
count_ids (g ∷ gs) =
    let rest = count_ids gs in if any (λ h. h.gh_id == g.gh_id) gs then rest else suc rest

unfoldable pub recheck_installations : List GithubInstallation → Tx ℕ
unfolding recheck_installation remove_gone count_ids
recheck_installations gs =
    session_scope
      (do for_each gs recheck_installation; change (remove_gone gs); pure (count_ids gs))
