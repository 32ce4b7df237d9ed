-- ===== src/Webhooks/Handlers.antt =====
-- The three handlers of webhooks: what each one does inside the single transaction, and what the first one
-- reads from GitHub before it.
use patchline.Prelude.{
  ℕ, suc, zero, Bool, true, false, ◌&&◌, Option, none, some, List, [], ◌∷◌, ◌++◌, Text, text, show,
  ◌==◌, find, same, reverse, map, filter, if◌then◌else◌,
}
use patchline.Models.{
  Database, Repository, Installation, ConnectionState, active, suspended, removed, PullRequest,
  PullRequestState, open_pr, merged, ChangelogEntry, pr_rejected, pr_merged, EventType, JobType,
  entry_table, pull_request_table, installation_table,
}
use patchline.Query.{modify, get}
use patchline.Tx.{Tx, pure, gets, change, for_each, when, ◌>>=◌, ◌>>◌}
use patchline.Env.{Env}
use patchline.ConfigStore.{instance_id}
use patchline.Notifications.{notice, record_notification}
use patchline.Coverage.{transition, apply_transition}
use patchline.Jobs.Enqueue.{enqueue_verification}
use patchline.Webhooks.Repositories.{
  RepoData, or_main, upsert_repository, has_github_id, ensure_installation, auto_scan_ready_entries,
}

abbrev pub verification_delay_seconds : ℕ
verification_delay_seconds = 5

-- The `action` of an installation payload
pub data InstallationAction : Type 0 where
  created new_permissions_accepted deleted suspended_action unsuspended other_action :
      InstallationAction

-- What `prepare` of the installation handler gives. GitHub always sends the key.
pub record InstallationEvent : Type 0 where
  pub installation_id : ℕ
  pub account_login : Text
  pub account_type : Text
  pub action : InstallationAction
  pub repositories : List RepoData

abbrev pub is_created : InstallationAction → Bool
is_created created = true
is_created new_permissions_accepted = true
is_created _ = false

abbrev is_named : RepoData → Bool
is_named d = elim d.full_name [ some (c ∷ s) ↦ true | _ ↦ false ]

abbrev with_main : RepoData → RepoData
with_main d = record d { default_branch = some (or_main d.default_branch) }

-- _InstallationHandler.prepare: the repositories. `listing` is GitHub's answer, none if the call raised.
unfoldable pub prepared_repositories :
    Option (List RepoData) → ℕ → InstallationAction → List RepoData → List RepoData
unfolding text
prepared_repositories listing zero action payload = []
prepared_repositories (some repos) (suc n) action payload = if is_created action then repos else []
prepared_repositories none (suc n) action payload =
    if is_created action then map with_main (filter is_named payload) else []

abbrev connection_after : InstallationAction → ConnectionState → ConnectionState
connection_after deleted old = removed
connection_after suspended_action old = suspended
connection_after created old = active
connection_after new_permissions_accepted old = active
connection_after unsuspended old = active
connection_after other_action old = old

abbrev store_installations : List Installation → Database → Database
store_installations rows db = record db { installations = rows }

-- _InstallationHandler.apply
unfoldable pub apply_installation : ℕ → InstallationEvent → Tx (Unit {0})
unfolding ensure_installation
apply_installation now e = do
  ensured ←
      gets (λ db.
        ensure_installation e.installation_id e.account_login e.account_type db.installations)
  change (
      store_installations (
        modify (has_github_id e.installation_id)
          (λ inst. record inst {
            account_login = e.account_login;
            connection_state = connection_after e.action inst.connection_state;
          })
          ensured.1))
  for_each e.repositories (upsert_repository ensured.0)
  when (is_created e.action) (auto_scan_ready_entries now)

-- What `prepare` of the installation_repositories handler gives
pub record RepositoriesEvent : Type 0 where
  pub installation_id : ℕ
  pub account_login : Text
  pub account_type : Text
  pub added : List RepoData
  pub removed_names : List Text

abbrev is_some_data : List RepoData → Bool
is_some_data [] = false
is_some_data (d ∷ data_list) = true

-- A repository that left the installation
unfoldable pub remove_repository : Text → Tx (Unit {0})
remove_repository name = change (λ db. record db {
  repositories =
      modify (λ r. same r.full_name name) (λ r. record r { connection_state = removed })
        db.repositories;
})

-- _InstallationRepositoriesHandler.apply
unfoldable pub apply_installation_repositories : ℕ → RepositoriesEvent → Tx (Unit {0})
unfolding ensure_installation remove_repository text
apply_installation_repositories now e = do
  ensured ←
      gets (λ db.
        ensure_installation e.installation_id e.account_login e.account_type db.installations)
  change (store_installations ensured.1)
  for_each e.added (λ d. upsert_repository ensured.0 (with_main d))
  for_each e.removed_names remove_repository
  when (is_some_data e.added) (auto_scan_ready_entries now)

-- The `action` of a pull_request payload: `reopened` and `synchronize` count as `opened`.
pub data PullAction : Type 0 where
  pull_closed pull_opened pull_other : PullAction

-- The keys of a pull_request payload that the code reads
pub record PullEvent : Type 0 where
  pub action : PullAction
  pub repo_full : Option Text
  pub number : Option ℕ
  pub is_merged : Bool

-- order_by(PullRequest.id.desc()).first(): rows are kept in the order of their keys.
unfoldable pub latest_pull : ℕ → ℕ → List PullRequest → Option PullRequest
latest_pull repo number rows =
    find (λ r. r.repository_id == repo && elim r.pr_number [ none ↦ false | some n ↦ n == number ])
      (reverse rows)

unfoldable pub set_pull_state : ℕ → PullRequestState → Tx (Unit {0})
set_pull_state i state = change (λ db. record db {
  pull_requests = modify (λ r. r.id == i) (λ r. record r { state = state }) db.pull_requests;
})

unfoldable pub verify_merge : ℕ → Repository → Option ChangelogEntry → Tx (Unit {0})
verify_merge now repo none = pure tt
verify_merge now repo (some entry) = do
  enqueue_verification now entry repo verification_delay_seconds
  pure tt

unfoldable pub pull_merged : Env → Repository → PullRequest → Text → ℕ → Tx (Unit {0})
unfolding set_pull_state verify_merge text show
pull_merged env repo row repo_full number = do
  set_pull_state row.id merged
  entry ← gets (λ db. get row.entry_id db.entries)
  verify_merge env.now repo entry
  instance ← instance_id env
  record_notification env instance
      (notice pr_merged row.entry_id repo_full (text "PR #" ++ show number ++ text " merged"))
  pure tt

unfoldable pub pull_rejected : Env → Repository → PullRequest → Text → ℕ → Tx (Unit {0})
unfolding set_pull_state text show
pull_rejected env repo row repo_full number = do
  set_pull_state row.id PullRequestState.rejected
  apply_transition env.now (record (transition row.entry_id repo.id pr_rejected JobType.webhook) {
    detail = some (text "PR #" ++ show number ++ text " closed without merge");
  })
  instance ← instance_id env
  record_notification env instance (
      notice EventType.pr_rejected row.entry_id repo_full
        (text "PR #" ++ show number ++ text " rejected"))
  pure tt

unfoldable pub apply_pull_action :
    Env → PullAction → Bool → Repository → Text → ℕ → PullRequest → Tx (Unit {0})
unfolding pull_merged pull_rejected set_pull_state
apply_pull_action env pull_closed true repo repo_full number row =
    pull_merged env repo row repo_full number
apply_pull_action env pull_closed false repo repo_full number row =
    pull_rejected env repo row repo_full number
apply_pull_action env pull_opened is_merged repo repo_full number row =
    set_pull_state row.id open_pr
apply_pull_action env pull_other is_merged repo repo_full number row = pure tt

-- A pull request that the program did not open is passed over.
unfoldable pub apply_pull_row :
    Env → PullEvent → Repository → Text → ℕ → Option PullRequest → Tx (Unit {0})
unfolding apply_pull_action
apply_pull_row env e repo repo_full number none = pure tt
apply_pull_row env e repo repo_full number (some row) =
    apply_pull_action env e.action e.is_merged repo repo_full number row

unfoldable pub apply_pull_repo : Env → PullEvent → Text → ℕ → Option Repository → Tx (Unit {0})
unfolding apply_pull_row latest_pull
apply_pull_repo env e repo_full number none = pure tt
apply_pull_repo env e repo_full number (some repo) = do
  row ← gets (λ db. latest_pull repo.id number db.pull_requests)
  apply_pull_row env e repo repo_full number row

-- A payload without a repository or a number is passed over.
unfoldable pub apply_pull_named : Env → PullEvent → Option Text → Option ℕ → Tx (Unit {0})
unfolding apply_pull_repo
apply_pull_named env e (some (c ∷ s)) (some number) = do
  repo ← gets (λ db. find (λ r. same r.full_name (c ∷ s)) db.repositories)
  apply_pull_repo env e (c ∷ s) number repo
apply_pull_named env e _ _ = pure tt

-- _PullRequestHandler.apply
unfoldable pub apply_pull_request : Env → PullEvent → Tx (Unit {0})
unfolding apply_pull_named
apply_pull_request env e = apply_pull_named env e e.repo_full e.number
