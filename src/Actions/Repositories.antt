-- ===== src/Actions/Repositories.antt =====
-- The routes of the repositories and of the connections, and the retry of a job. What GitHub answers is an
-- argument.
pub mod Clean
pub mod Order
pub mod Branches
use patchline.Prelude.{
  ℕ, Bool, true, false, ◌==◌, Option, none, some, List, [], ◌∷◌, Text, text, same, any, or_blank,
  sort_by, if◌then◌else◌,
}
use patchline.Models.{Repository, ScanJob, JobStatus, branches, repository_table, job_table}
use patchline.Query.{get, modify}
use patchline.Tx.{Tx, pure, gets, change, session_scope, catch, ◌>>=◌, ◌>>◌}
use patchline.Env.{Env}
use patchline.Web.{Response, redirect, redirect_error, refused}
use patchline.Security.BranchNames.{BranchError, validate_branch_names}
use patchline.Jobs.Row.{is_active}
use patchline.Jobs.Branches.{clean_branches, branch_le}
use patchline.Sync.Installations.{GithubInstallation, recheck_installations}
use patchline.Sync.Pulls.{Work, PullAnswer, sync_pull_requests}
use patchline.Actions.{Request, guarded, form_get}

abbrev with_head : ℕ → List Text → List Text
with_head c [] = (c ∷ []) ∷ []
with_head c (s ∷ rest) = (c ∷ s) ∷ rest

-- s.split(sep)
unfoldable pub split_on : ℕ → Text → List Text
split_on sep [] = [] ∷ []
split_on sep (c ∷ s) = let rest = split_on sep s in if c == sep then [] ∷ rest else with_head c rest

unfoldable pub branches_of_form : Request → List Text
unfolding form_get split_on clean_branches
branches_of_form request =
    clean_branches (split_on b',' (or_blank (form_get (text "branches") request)))

-- set(branches), where the order of the first places is kept; the sort makes it irrelevant.
unfoldable pub distinct : List Text → List Text → List Text
distinct seen [] = []
distinct seen (b ∷ names) =
    let rest = distinct (b ∷ seen) names in if any (same b) seen then rest else b ∷ rest

-- sorted(set(branches), key=…): the default branch first, then in the order of the form.
unfoldable pub order_branches : Text → List Text → List Text
unfolding distinct branch_le
order_branches default names = sort_by (branch_le default names) (distinct [] names)

-- Does GitHub have the branch? `none` where the call raised.
abbrev pub BranchAnswer : Type 0
BranchAnswer = Text → Text → Option Bool

-- The first branch that GitHub does not have, or could not say.
unfoldable pub all_exist : (Text → Option Bool) → List Text → Bool
all_exist exists [] = true
all_exist exists (name ∷ names) = elim (exists name) [
  | some true ↦ all_exist exists names
  | _ ↦ false
]

abbrev repositories_page : Text
repositories_page = text "/repositories"

unfoldable pub save_branches : BranchAnswer → ℕ → List Text → Option Repository → Tx Response
unfolding all_exist order_branches
save_branches exists rid names none = pure (refused 404)
save_branches exists rid names (some repo) =
    if is_active repo.connection_state
    then (if all_exist (exists repo.full_name) names
        then (do
          change (λ db. record db {
            repositories =
                modify (λ r. r.id == rid)
                  (λ r. record r {
                    scan_branches = branches (order_branches repo.default_branch names);
                  })
                  db.repositories;
          })
          pure (redirect (text "/repositories?saved=1")))
        else pure (redirect_error repositories_page))
    else pure (redirect_error repositories_page)

unfoldable pub check_branches : BranchAnswer → ℕ → List Text → List BranchError → Tx Response
unfolding get save_branches
check_branches exists rid names (e ∷ errors) = pure (redirect_error repositories_page)
check_branches exists rid names [] =
    session_scope
      (do repo ← gets (λ db. get rid db.repositories); save_branches exists rid names repo)

unfoldable pub configure_branches : BranchAnswer → Request → ℕ → Tx Response
unfolding guarded branches_of_form validate_branch_names check_branches
configure_branches exists request rid = guarded request (
    check_branches exists rid (branches_of_form request)
      (validate_branch_names (branches_of_form request)))

-- The route over recheck_installations, whose exceptions are logged. `gs` is missing where the call of
-- GitHub raised.
unfoldable pub recheck_with : Option (List GithubInstallation) → Tx Response
unfolding recheck_installations
recheck_with none = pure (redirect_error (text "/connections/setup"))
recheck_with (some gs) =
    catch (recheck_installations gs >> pure (redirect (text "/connections/setup?rechecked=1")))
      (λ e. pure (redirect_error (text "/connections/setup")))

unfoldable pub recheck : Request → Option (List GithubInstallation) → Tx Response
unfolding guarded recheck_with
recheck request gs = guarded request (recheck_with gs)

unfoldable pub sync : Env → Request → (Work → PullAnswer) → Tx Response
unfolding guarded sync_pull_requests
sync env request answers = guarded request (
    catch (sync_pull_requests env.now answers >> pure (redirect (text "/pull-requests?synced=1")))
      (λ e. pure (redirect (text "/pull-requests?synced=0"))))

abbrev is_retryable : JobStatus → Bool
is_retryable JobStatus.failed = true
is_retryable JobStatus.skipped_language = true
is_retryable _ = false

unfoldable pub retried : ScanJob → ScanJob
retried job = record job {
  status = JobStatus.queued;
  error_message = none;
  claimed_at = none;
  started_at = none;
  next_attempt_at = none;
}

unfoldable pub retry_with : ℕ → Option ScanJob → Tx Response
unfolding retried
retry_with id none = pure (refused 404)
retry_with id (some job) =
    if is_retryable job.status
    then (do
      change (λ db. record db { jobs = modify (λ j. j.id == id) retried db.jobs })
      pure (redirect (text "/jobs")))
    else pure (refused 409)

unfoldable pub retry_job : Request → ℕ → Tx Response
unfolding guarded get retry_with
retry_job request job_id =
    guarded request
      (session_scope (do job ← gets (λ db. get job_id db.jobs); retry_with job_id job))
