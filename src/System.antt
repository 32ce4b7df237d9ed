-- ===== src/System.antt =====
-- The program as a whole: every way in which the web application and the worker change the database, one
-- call after the other, with whatever clock, request and answers of GitHub and of the engine.
pub mod Invariant
use patchline.Prelude.{ℕ, Option, List, Text}
use patchline.Models.{Database}
use patchline.Tx.{session_scope}
use patchline.Env.{Env}
use patchline.Security.{Hmac}
use patchline.Auth.{Draws}
use patchline.Auth.Middleware.{session_middleware}
use patchline.Auth.Login.{GithubUser, demo_entry, login, login_start, github_callback, logout}
use patchline.Sync.Installations.{GithubInstallation}
use patchline.Sync.Pulls.{Work, PullAnswer}
use patchline.Webhooks.Process.{Event}
use patchline.Webhooks.Route.{Headers, github_webhook}
use patchline.Dispatch.Github.{Github, Tools}
use patchline.Jobs.Queue.{requeue_stale_jobs, stale_claim_minutes}
use patchline.Worker.{Outside, worker_pass, rescan_round}
use patchline.Actions.{Request}
use patchline.Actions.Entries.{entry_create, scan_trigger, rescan_repo, flag_occurrence, generate}
use patchline.Actions.Approve.{approve_and_dispatch, mark_migrated}
use patchline.Actions.Repositories.{BranchAnswer, configure_branches, recheck, sync, retry_job}

-- One call, from the database before it to the one behind it, whether it returns or raises. The calls
-- themselves are written out in the modules of their parts.
pub data Step (db : Database) : Database → Type 1 where
  visit : (env : Env) (path cookie : Text) → Step db (session_middleware env path cookie db).1
  enter_demo :
      (hmac : Hmac) (env : Env) (draws : Draws) (gs : Option (List GithubInstallation))
      → Step db (demo_entry hmac env draws gs db).1
  show_login :
      (hmac : Hmac) (env : Env) (draws : Draws) (gs : Option (List GithubInstallation)) (to : Text)
      → Step db (login hmac env draws gs to db).1
  start_login :
      (hmac : Hmac) (env : Env) (draws : Draws) (gs : Option (List GithubInstallation))
      (to cookie : Text)
      → Step db (login_start hmac env draws gs to cookie db).1
  call_back :
      (hmac : Hmac) (env : Env) (draws : Draws) (cookie state to error : Text)
      (user : Option GithubUser)
      → Step db (github_callback hmac env draws cookie state to error user db).1
  leave : (env : Env) (cookie : Text) → Step db (logout env cookie db).1
  receive :
      (hmac : Hmac) (env : Env) (read_event : Text → Text → Option Event) (headers : Headers)
      (body : Text)
      → Step db (github_webhook hmac env read_event headers body db).1
  create : (env : Env) (request : Request) → Step db (entry_create env request db).1
  trigger :
      (env : Env) (request : Request) (entry_id : ℕ)
      → Step db (scan_trigger env request entry_id db).1
  rescan :
      (env : Env) (request : Request) (entry_id rid : ℕ)
      → Step db (rescan_repo env request entry_id rid db).1
  flag : (env : Env) (request : Request) (oid : ℕ) → Step db (flag_occurrence env request oid db).1
  ask_remediation :
      (request : Request) (entry_id rid : ℕ) → Step db (generate request entry_id rid db).1
  approve :
      {W : Type 0} (gh : Github W) (tools : Tools) (env : Env) (request : Request)
      (entry_id rid : ℕ) (w : W)
      → Step db (approve_and_dispatch gh tools env request entry_id rid db w).0.1
  mark :
      (env : Env) (request : Request) (entry_id rid : ℕ)
      → Step db (mark_migrated env request entry_id rid db).1
  configure :
      (exists : BranchAnswer) (request : Request) (rid : ℕ)
      → Step db (configure_branches exists request rid db).1
  check_again :
      (request : Request) (gs : Option (List GithubInstallation))
      → Step db (recheck request gs db).1
  synchronize :
      (env : Env) (request : Request) (answers : Work → PullAnswer)
      → Step db (sync env request answers db).1
  retry : (request : Request) (job_id : ℕ) → Step db (retry_job request job_id db).1
  start_worker :
      (env : Env) → Step db (session_scope (requeue_stale_jobs stale_claim_minutes env.now) db).1
  pass : (env : Env) (out : Outside) → Step db (worker_pass env out db).1
  schedule : (env : Env) → Step db (rescan_round env db).1

-- The databases that a sequence of calls can leave.
pub data Reach (start : Database) : Database → Type 1 where
  here : Reach start start
  next : {a b : Database} → Reach start a → Step a b → Reach start b
