-- ===== src/Examples/Hooks.antt =====
-- The theorems on webhooks, pull request polls and rechecks at concrete inputs.
use mathlib.Core.Option
use patchline.Models.{removed, active, Database, Status, PullRequest, open_pr, pull_request_table}
use patchline.Sync.Installations.{recheck_installations}
use patchline.Sync.Recheck.{connection, recheck_installations_lem}
use patchline.Sync.Installations.{GithubInstallation}
use patchline.Examples.Fixtures.{widgets, scanning_db}
use patchline.Prelude.{
  ℕ, ◌&&◌, false, any, ◌==◌, if◌then◌else◌, [], ◌∷◌, ◌≡◌, refl, true, none, some, text, find, same,
}
use patchline.Models.{empty}
use patchline.Tx.{ok, is_ok, session_scope, ◌>>=◌, pure, gets, change}
use patchline.Env.{notification_webhook_url, notification_signing_secret}
use patchline.Notifications.{flush_pending, notifications_enabled}
use patchline.Webhooks.Process.{
  Event, unhandled, pull_request, processed, skipped, process_webhook, delivery_already_succeeded,
}
use patchline.Webhooks.Handlers.{pull_closed, PullEvent, latest_pull, apply_pull_request}
use patchline.Sync.Pulls.{pull_state, Work, Summary, sync_pull}
use patchline.Webhooks.Board.{apply_pull_request_board}
use patchline.Sync.Board.{sync_pull_board}
use patchline.Coverage.Board.{status_of}
use patchline.Coverage.Effect.{permits, after}
use patchline.Query.{get}
use patchline.Webhooks.Once.{process_webhook_once}
use patchline.Examples.Fixtures.{quiet_env}

-- A pull request of another repository is closed.
abbrev foreign_pull : Event
foreign_pull = pull_request (record {
  action = pull_closed;
  repo_full = some (text "other/repo");
  number = some 3;
  is_merged = true;
})

foreign_processed :
    (process_webhook quiet_env (text "d1") (text "pull_request") foreign_pull empty).0
    ≡ ok processed
unfolding process_webhook delivery_already_succeeded session_scope ◌>>=◌ pure gets change find same
    flush_pending notifications_enabled notification_webhook_url notification_signing_secret
foreign_processed = refl

process_webhook_once_example :
    process_webhook quiet_env
      (text "d1")
      (text "push")
      unhandled
      (process_webhook quiet_env (text "d1") (text "pull_request") foreign_pull empty).1
    ≡ (
      ok skipped,
      (process_webhook quiet_env (text "d1") (text "pull_request") foreign_pull empty).1,
    )
process_webhook_once_example =
    process_webhook_once quiet_env quiet_env (text "d1") (text "pull_request") (text "push")
      foreign_pull unhandled empty foreign_processed

abbrev installed : Database
installed = record empty {
  installations =
      record {
        id = 1;
        github_installation_id = 50;
        account_login = text "acme";
        account_type = text "User";
        connection_state = active;
      }
      ∷ [];
  repositories = widgets ∷ [];
}

-- GitHub lists another installation, with one repository.
abbrev newcomer : GithubInstallation
newcomer = record {
  gh_id = 51;
  account_login = some (text "mona");
  login = none;
  account_type = none;
  type = none;
  repositories = some (
      record {
        full_name = some (text "mona/tools");
        default_branch = none;
        primary_language = none;
      }
      ∷ []);
}

recheck_installations_lem_example :
    let (answer, after) = recheck_installations (newcomer ∷ []) installed in
    (is_ok answer ≡ true)
    × (connection 50 after.installations ≡ (
        if any (λ g. g.gh_id == 50) (newcomer ∷ [])
        then some active
        else Option.map (λ c. removed) (connection 50 installed.installations)))
recheck_installations_lem_example = recheck_installations_lem (newcomer ∷ []) installed 50

-- The program's own pull request for the repository.
abbrev own_pull : PullRequest
own_pull = record {
  id = 6;
  remediation_id = 4;
  repository_id = 7;
  entry_id = 1;
  branch_name = none;
  pr_number = some 12;
  pr_url = none;
  state = open_pr;
}

abbrev pull_db : Database
pull_db = record scanning_db { pull_requests = own_pull ∷ [] }

abbrev closing : PullEvent
closing = record {
  action = pull_closed;
  repo_full = some (text "acme/widgets");
  number = some 12;
  is_merged = false;
}

widgets_named :
    find (λ r. same r.full_name (text "acme/widgets")) pull_db.repositories ≡ some widgets
unfolding find same text
widgets_named = refl

own_pull_latest : latest_pull 7 12 pull_db.pull_requests ≡ some own_pull
unfolding latest_pull find
own_pull_latest = refl

own_pull_found : get 6 pull_db.pull_requests ≡ some own_pull
unfolding get find
own_pull_found = refl

apply_pull_request_board_example :
    let (answer, told) = apply_pull_request quiet_env closing pull_db in
    let may = permits (status_of pull_db.coverage 1 7) (some Status.pr_rejected) in
    (is_ok answer ≡ may)
    × ((e r : ℕ)
        → status_of told.coverage e r ≡ (
            if may
            then after (some Status.pr_rejected) (status_of pull_db.coverage e r) (1 == e && 7 == r)
            else status_of pull_db.coverage e r))
unfolding text
apply_pull_request_board_example =
    apply_pull_request_board quiet_env pull_closed false b'a' (text "cme/widgets") 12 pull_db
      widgets own_pull widgets_named own_pull_latest

abbrev own_work : Work
own_work = record { pr_id = 6; repo_full_name = text "acme/widgets"; pr_number = 12 }

abbrev nothing_yet : Summary
nothing_yet = record { checked = 0; merged = 0; rejected = 0; unchanged = 0; errors = 0 }

sync_pull_board_example :
    let (answer, synced) = sync_pull 300 own_work nothing_yet (pull_state true false) pull_db in
    let may = permits (status_of pull_db.coverage 1 7) (some Status.pr_rejected) in
    (is_ok answer ≡ may)
    × ((e r : ℕ)
        → status_of synced.coverage e r ≡ (
            if may
            then after (some Status.pr_rejected) (status_of pull_db.coverage e r) (1 == e && 7 == r)
            else status_of pull_db.coverage e r))
sync_pull_board_example =
    sync_pull_board 300 own_work nothing_yet true false pull_db own_pull own_pull_found
