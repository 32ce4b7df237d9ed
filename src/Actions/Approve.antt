-- ===== src/Actions/Approve.antt =====
-- The approval of a remediation, with its dispatch, and the manual end of a migration.
use patchline.Prelude.{
  ℕ, Bool, true, false, ◌&&◌, ◌==◌, Option, none, some, List, [], ◌++◌, Text, text, same, find,
  reverse, or_blank, if◌then◌else◌,
}
use patchline.Models.{Database, Remediation, remediation_table}
use patchline.Query.{get}
use patchline.Tx.{
  Tx, Result, ok, err, Error, stale_confirmation, dispatch_failure, invalid_transition, pure, raise,
  gets, session_scope, catch, value_error, ◌>>=◌, ◌>>◌,
}
use patchline.Env.{Env, demo_mode}
use patchline.Web.{Response, redirect, refused}
use patchline.Security.Redirect.{safe_redirect_target}
use patchline.Auth.{needs_step_up}
use patchline.Scanning.Finish.{or_attribute_error}
use patchline.Dispatch.Github.{Github, Tools}
use patchline.Dispatch.Gate.{is_dispatchable, record_confirmation}
use patchline.Dispatch.Run.{
  Dispatched, dispatched, dispatch_failed, dispatch_remediation, mark_migrated_manually,
}
use patchline.Actions.{Request, has_token, guarded, form_get}
use patchline.Actions.Entries.{review_page, entry_page}

abbrev is_kept : Remediation → Bool
is_kept rem = elim rem.deleted_at [ none ↦ true | some t ↦ false ]

-- _latest_remediation of routes/surfaces.py: rows are kept in the order of their keys.
unfoldable pub latest_remediation : ℕ → ℕ → List Remediation → Option Remediation
unfolding find
latest_remediation entry_id rid rows =
    find (λ r. r.entry_id == entry_id && r.repository_id == rid && is_kept r) (reverse rows)

-- What the route has found out before it calls dispatch_remediation.
pub data Approval : Type 0 where
  answer : Response → Approval
  dispatch : ℕ → Approval

-- The hash of a confirmation may not be NULL: the database refuses the row.
unfoldable pub confirm_hash : Remediation → ℕ → Option Text → Tx (Unit {0})
unfolding record_confirmation
confirm_hash rem vendor_id none = raise (value_error [])
confirm_hash rem vendor_id (some hash) = record_confirmation rem vendor_id hash >> pure tt

unfoldable pub confirm : Request → ℕ → Tx Approval
unfolding get or_attribute_error confirm_hash
confirm request id = do
  session_scope (do
    found ← gets (λ db. get id db.remediations)
    rem ← or_attribute_error found
    vendor ← or_attribute_error request.state.vendor
    confirm_hash rem vendor.id rem.diff_sha256)
  pure (dispatch id)

unfoldable pub approve_latest : Env → Request → ℕ → ℕ → Option Remediation → Tx Approval
unfolding confirm demo_mode review_page
approve_latest env request entry_id rid none = pure (answer (refused 409))
approve_latest env request entry_id rid (some rem) =
    if is_dispatchable rem.status
    then (if demo_mode env
        then pure (answer (redirect (review_page entry_id rid ++ text "?simulated=1")))
        else confirm request rem.id)
    else pure (answer (refused 409))

-- The step-up, the latest remediation, the demo mode and the confirmation.
unfoldable pub approve : Env → Request → ℕ → ℕ → Tx Approval
unfolding has_token needs_step_up safe_redirect_target latest_remediation approve_latest review_page
approve env request entry_id rid =
    if has_token request
    then (if needs_step_up env request.state.session
        then pure (
            answer (
              redirect (
                text "/login/start?step_up=1&redirect_to="
                ++ safe_redirect_target (some (review_page entry_id rid)))))
        else (do
          rem ← session_scope (gets (λ db. latest_remediation entry_id rid db.remediations))
          approve_latest env request entry_id rid rem))
    else pure (answer (refused 403))

-- The two exceptions that the route handles; any other one leaves.
unfoldable pub dispatch_answer : ℕ → ℕ → Result Dispatched → Result Response
unfolding review_page
dispatch_answer entry_id rid (ok dispatched) = ok (redirect (text "/pull-requests"))
dispatch_answer entry_id rid (ok dispatch_failed) =
    ok (redirect (review_page entry_id rid ++ text "?dispatch=failed"))
dispatch_answer entry_id rid (err stale_confirmation) = ok (refused 409)
dispatch_answer entry_id rid (err (dispatch_failure message)) = ok (refused 409)
dispatch_answer entry_id rid (err e) = err e

module _ {W : Type 0} (gh : Github W) (tools : Tools) (env : Env) (request : Request)
    (entry_id rid : ℕ) where
  unfoldable pub dispatch_approved :
      Result Approval → Database → W → (Result Response × Database) × W
  unfolding dispatch_remediation dispatch_answer
  dispatch_approved (err e) db w = ((err e, db), w)
  dispatch_approved (ok (answer response)) db w = ((ok response, db), w)
  dispatch_approved (ok (dispatch id)) db w =
      let ((result, db'), w') = dispatch_remediation gh tools env id db w in
      ((dispatch_answer entry_id rid result, db'), w')

  unfoldable pub approve_and_dispatch : Database → W → (Result Response × Database) × W
  unfolding approve dispatch_approved
  approve_and_dispatch db w =
      let (begun, db') = approve env request entry_id rid db in dispatch_approved begun db' w

-- `except InvalidTransition`
unfoldable pub refuse_transition : Error → Tx Response
refuse_transition (invalid_transition a b) = pure (refused 409)
refuse_transition e = raise e

unfoldable pub mark_migrated : Env → Request → ℕ → ℕ → Tx Response
unfolding guarded form_get same mark_migrated_manually refuse_transition entry_page
mark_migrated env request entry_id rid = guarded request (
    if same (or_blank (form_get (text "confirm") request)) (text "yes")
    then session_scope (
        catch
          (do
            mark_migrated_manually env.now entry_id rid
            pure (redirect (entry_page entry_id ++ text "/coverage")))
          refuse_transition)
    else pure (refused 409))
