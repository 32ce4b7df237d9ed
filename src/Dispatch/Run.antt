-- ===== src/Dispatch/Run.antt =====
-- The transaction after the calls to GitHub, and the whole of dispatch_remediation.
use patchline.Prelude.{
  ℕ, Bool, true, false, ◌&&◌, Option, none, some, [], ◌∷◌, ◌++◌, Text, text, show, ◌==◌, any, take,
  if◌then◌else◌,
}
use patchline.Models.{
  Database, Remediation, RemediationStatus, PullRequest, PullRequestState, open_pr, Status, pr_open,
  JobType, pr_dispatched, pull_request_table, remediation_table, migrated,
}
use patchline.Query.{get, modify, next_id}
use patchline.Tx.{
  Tx, Result, ok, err, pure, raise, attribute_error, gets, change, session_scope, ◌>>=◌, ◌>>◌,
}
use patchline.Env.{Env}
use patchline.ConfigStore.{instance_id}
use patchline.Notifications.{notice, record_notification, flush_pending}
use patchline.Coverage.{transition, apply_transition}
use patchline.Dispatch.Github.{
  Answer, answered, raised, Github, Tools, GithubError, fast_forward, permission_denied, other,
}
use patchline.Dispatch.Gate.{DispatchContext, gate}
use patchline.Dispatch.Push.{Pushed, push}

-- What dispatch_remediation returns
pub data Dispatched : Type 0 where
  dispatched dispatch_failed : Dispatched

abbrev pull_row :
    ℕ → ℕ → DispatchContext → Option Text → Option ℕ → Option Text → PullRequestState → PullRequest
pull_row i rem_id c branch number url state = record {
  id = i;
  remediation_id = rem_id;
  repository_id = c.repo_id;
  entry_id = c.entry_id;
  branch_name = branch;
  pr_number = number;
  pr_url = url;
  state = state;
}

abbrev add_pull : PullRequest → Database → Database
add_pull row db = record db { pull_requests = db.pull_requests ++ row ∷ [] }

-- filter_by(remediation_id=…, state="dispatch_failed")
abbrev is_failed_pull : ℕ → PullRequest → Bool
is_failed_pull rem_id row =
    row.remediation_id == rem_id
    && elim row.state [ PullRequestState.dispatch_failed ↦ true | _ ↦ false ]

abbrev failed_remediation : Text → Remediation → Remediation
failed_remediation message rem = record rem {
  status = RemediationStatus.dispatch_failed;
  error_message = some (take 900 message);
}

-- _mark_dispatch_failed, without the transaction around it
unfoldable pub mark_dispatch_failed : ℕ → ℕ → DispatchContext → Text → Tx (Unit {0})
mark_dispatch_failed now rem_id c message = do
  change (λ db. record db {
    remediations = modify (λ r. r.id == rem_id) (failed_remediation message) db.remediations;
  })
  i ← gets (λ db. next_id db.pull_requests)
  known ← gets (λ db. any (is_failed_pull rem_id) db.pull_requests)
  (if known
      then pure tt
      else change (add_pull (pull_row i rem_id c none none none PullRequestState.dispatch_failed)))
  apply_transition now
      (record (transition c.entry_id c.repo_id Status.dispatch_failed JobType.dispatch) {
        detail = some (take 400 message);
      })
  pure tt

abbrev number_word : Option ℕ → Text
number_word none = text "None"
number_word (some n) = show n

unfoldable pub require_remediation : Option Remediation → Tx (Unit {0})
require_remediation none = raise attribute_error
require_remediation (some rem) = pure tt

-- The rows, the board and the notification of a pull request that was opened.
unfoldable pub store_pull : Env → ℕ → DispatchContext → Pushed → Tx (Unit {0})
unfolding text show
store_pull env rem_id c p = do
  change (λ db. record db {
    remediations =
        modify (λ r. r.id == rem_id) (λ r. record r { status = RemediationStatus.dispatched })
          db.remediations;
  })
  i ← gets (λ db. next_id db.pull_requests)
  change (add_pull (pull_row i rem_id c (some p.branch_name) p.pull.number p.pull.html_url open_pr))
  apply_transition env.now (transition c.entry_id c.repo_id pr_open JobType.dispatch)
  instance ← instance_id env
  record_notification env instance
      (notice pr_dispatched c.entry_id c.repo_full_name (text "PR #" ++ number_word p.pull.number))
  pure tt

-- The transaction that records the pull request.
unfoldable pub record_pull : Env → ℕ → DispatchContext → Pushed → Tx (Unit {0})
unfolding require_remediation store_pull
record_pull env rem_id c p = do
  rem ← gets (λ db. get rem_id db.remediations)
  require_remediation rem
  store_pull env rem_id c p

-- The text of the exception, as each except clause passes it on.
unfoldable pub failure_text : GithubError → Text
unfolding text
failure_text (fast_forward message) = message
failure_text (permission_denied message) = text "permission denied: " ++ message
failure_text (other message) = message

unfoldable pub settle_dispatch : Env → ℕ → DispatchContext → Answer Pushed → Tx Dispatched
unfolding mark_dispatch_failed record_pull failure_text
settle_dispatch env rem_id c (raised e) = do
  session_scope (mark_dispatch_failed env.now rem_id c (failure_text e))
  pure dispatch_failed
settle_dispatch env rem_id c (answered p) = do
  session_scope (record_pull env rem_id c p)
  flush_pending env
  pure dispatched

module _ {W : Type 0} (gh : Github W) (tools : Tools) (env : Env) (rem_id : ℕ) where
  -- Behind the gate: an exception of the gate leaves, before any call is made.
  unfoldable pub after_gate :
      Result DispatchContext → Database → W → (Result Dispatched × Database) × W
  unfolding settle_dispatch push
  after_gate (err e) db w = ((err e, db), w)
  after_gate (ok c) db w =
      let (pushed, w') = push gh tools c env.now w in (settle_dispatch env rem_id c pushed db, w')

  unfoldable pub dispatch_remediation : Database → W → (Result Dispatched × Database) × W
  unfolding after_gate gate
  dispatch_remediation db w =
      let (begun, db') = session_scope (gate tools rem_id) db in after_gate begun db' w

-- mark_migrated_manually
unfoldable pub mark_migrated_manually : ℕ → ℕ → ℕ → Tx (Unit {0})
unfolding text
mark_migrated_manually now entry repo = do
  apply_transition now (record (transition entry repo migrated JobType.manual) {
    manual_migrated = some true;
    detail = some (text "marked as migrated manually (diff-export path; no verification scan)");
  })
  pure tt
