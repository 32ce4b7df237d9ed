-- ===== src/Sound/Actions.antt =====
-- Every action of a vendor keeps the board sound.
use patchline.Prelude.{ℕ, Option, none, some, List, [], ◌∷◌, Text}
use patchline.Models.{Repository, ChangelogEntry, Occurrence, ScanJob, Remediation}
use patchline.Tx.{
  Tx, Error, invalid_transition, value_error, attribute_error, stale_confirmation, dispatch_failure,
}
use patchline.Tx.Respects.{Respects}
use patchline.Env.{Env}
use patchline.Web.{Response}
use patchline.Coverage.Sound.{KeepsSound, sound_rules}
use patchline.Sound.Queue.{enqueue_scans_for_entry-IsSound, enqueue_rescan-IsSound}
use patchline.Sound.Remediations.{or_attribute_error-IsSound, enqueue_remediation-IsSound}
use patchline.Sync.Installations.{GithubInstallation}
use patchline.Sync.Pulls.{Work, PullAnswer}
use patchline.Sync.Reconcile.{recheck_installations-IsSound, sync_pull_requests-IsSound}
use patchline.Webhooks.Process.{Event}
use patchline.Webhooks.Route.{Headers, process_event, process_delivery, github_webhook}
use patchline.Webhooks.Sound.{process_webhook-IsSound}
use patchline.Security.{Hmac}
use patchline.Security.BranchNames.{BranchError}
use patchline.Dispatch.Board.{mark_migrated_manually-IsSound}
use patchline.Dispatch.Gate.{record_confirmation}
use patchline.Actions.{Request, guarded}
use patchline.Actions.Entries.{
  FormError, create_entry, entry_create, trigger_with, scan_trigger, rescan_with, rescan_repo,
  flag_with, flag_occurrence, generate_from, generate_with, generate,
}
use patchline.Actions.Repositories.{
  BranchAnswer, save_branches, check_branches, configure_branches, recheck_with, recheck, sync,
  retry_with, retry_job,
}
use patchline.Actions.Approve.{
  confirm_hash, confirm, approve_latest, approve, refuse_transition, mark_migrated,
}

guarded-IsSound :
    (request : Request) (m : Tx Response)
    → Respects KeepsSound m
    → Respects KeepsSound (guarded request m)
unfolding guarded
guarded-IsSound request m h = search sound_rules

create_entry-IsSound :
    (env : Env) (request : Request) (errors : List FormError)
    → Respects KeepsSound (create_entry env request errors)
unfolding create_entry
create_entry-IsSound env request [] = search (sound_rules, or_attribute_error-IsSound) depth 9
create_entry-IsSound env request (e ∷ errors) = search sound_rules

pub entry_create-IsSound :
    (env : Env) (request : Request) → Respects KeepsSound (entry_create env request)
unfolding entry_create
entry_create-IsSound env request = search (sound_rules, guarded-IsSound, create_entry-IsSound)

trigger_with-IsSound :
    (env : Env) (id : ℕ) (entry : Option ChangelogEntry)
    → Respects KeepsSound (trigger_with env id entry)
unfolding trigger_with
trigger_with-IsSound env id none = search sound_rules
trigger_with-IsSound env id (some entry) =
    search (sound_rules, enqueue_scans_for_entry-IsSound) depth 9

pub scan_trigger-IsSound :
    (env : Env) (request : Request) (id : ℕ) → Respects KeepsSound (scan_trigger env request id)
unfolding scan_trigger
scan_trigger-IsSound env request id =
    search (sound_rules, guarded-IsSound, trigger_with-IsSound) depth 9

rescan_with-IsSound :
    (env : Env) (id : ℕ) (entry : Option ChangelogEntry) (repo : Option Repository)
    → Respects KeepsSound (rescan_with env id entry repo)
unfolding rescan_with
rescan_with-IsSound env id none repo = search sound_rules
rescan_with-IsSound env id (some entry) none = search sound_rules
rescan_with-IsSound env id (some entry) (some repo) =
    search (sound_rules, enqueue_rescan-IsSound) depth 9

pub rescan_repo-IsSound :
    (env : Env) (request : Request) (id rid : ℕ)
    → Respects KeepsSound (rescan_repo env request id rid)
unfolding rescan_repo
rescan_repo-IsSound env request id rid =
    search (sound_rules, guarded-IsSound, rescan_with-IsSound) depth 9

flag_with-IsSound :
    (env : Env) (request : Request) (oid : ℕ) (occ : Option Occurrence)
    → Respects KeepsSound (flag_with env request oid occ)
unfolding flag_with
flag_with-IsSound env request oid none = search sound_rules
flag_with-IsSound env request oid (some occ) =
    search (sound_rules, or_attribute_error-IsSound) depth 12

pub flag_occurrence-IsSound :
    (env : Env) (request : Request) (oid : ℕ)
    → Respects KeepsSound (flag_occurrence env request oid)
unfolding flag_occurrence
flag_occurrence-IsSound env request oid =
    search (sound_rules, guarded-IsSound, flag_with-IsSound) depth 9

generate_from-IsSound :
    (id rid : ℕ) (job : Option ScanJob) → Respects KeepsSound (generate_from id rid job)
unfolding generate_from
generate_from-IsSound id rid none = search sound_rules
generate_from-IsSound id rid (some job) = search (sound_rules, enqueue_remediation-IsSound) depth 9

generate_with-IsSound :
    (id rid : ℕ) (entry : Option ChangelogEntry) (repo : Option Repository)
    → Respects KeepsSound (generate_with id rid entry repo)
unfolding generate_with
generate_with-IsSound id rid none repo = search sound_rules
generate_with-IsSound id rid (some entry) none = search sound_rules
generate_with-IsSound id rid (some entry) (some repo) =
    search (sound_rules, generate_from-IsSound) depth 9

pub generate-IsSound :
    (request : Request) (id rid : ℕ) → Respects KeepsSound (generate request id rid)
unfolding generate
generate-IsSound request id rid =
    search (sound_rules, guarded-IsSound, generate_with-IsSound) depth 9

save_branches-IsSound :
    (exists : BranchAnswer) (rid : ℕ) (names : List Text) (repo : Option Repository)
    → Respects KeepsSound (save_branches exists rid names repo)
unfolding save_branches
save_branches-IsSound exists rid names none = search sound_rules
save_branches-IsSound exists rid names (some repo) = search sound_rules depth 9

check_branches-IsSound :
    (exists : BranchAnswer) (rid : ℕ) (names : List Text) (errors : List BranchError)
    → Respects KeepsSound (check_branches exists rid names errors)
unfolding check_branches
check_branches-IsSound exists rid names [] = search (sound_rules, save_branches-IsSound)
check_branches-IsSound exists rid names (e ∷ errors) = search sound_rules

pub configure_branches-IsSound :
    (exists : BranchAnswer) (request : Request) (rid : ℕ)
    → Respects KeepsSound (configure_branches exists request rid)
unfolding configure_branches
configure_branches-IsSound exists request rid =
    search (sound_rules, guarded-IsSound, check_branches-IsSound)

recheck_with-IsSound :
    (gs : Option (List GithubInstallation)) → Respects KeepsSound (recheck_with gs)
unfolding recheck_with
recheck_with-IsSound none = search sound_rules
recheck_with-IsSound (some gs) = search (sound_rules, recheck_installations-IsSound)

pub recheck-IsSound :
    (request : Request) (gs : Option (List GithubInstallation))
    → Respects KeepsSound (recheck request gs)
unfolding recheck
recheck-IsSound request gs = search (sound_rules, guarded-IsSound, recheck_with-IsSound)

pub sync-IsSound :
    (env : Env) (request : Request) (answers : Work → PullAnswer)
    → Respects KeepsSound (sync env request answers)
unfolding sync
sync-IsSound env request answers =
    search (sound_rules, guarded-IsSound, sync_pull_requests-IsSound) depth 9

retry_with-IsSound : (id : ℕ) (job : Option ScanJob) → Respects KeepsSound (retry_with id job)
unfolding retry_with
retry_with-IsSound id none = search sound_rules
retry_with-IsSound id (some job) = search sound_rules

pub retry_job-IsSound : (request : Request) (id : ℕ) → Respects KeepsSound (retry_job request id)
unfolding retry_job
retry_job-IsSound request id = search (sound_rules, guarded-IsSound, retry_with-IsSound) depth 9

confirm_hash-IsSound :
    (rem : Remediation) (v : ℕ) (hash : Option Text) → Respects KeepsSound (confirm_hash rem v hash)
unfolding confirm_hash record_confirmation
confirm_hash-IsSound rem v none = search sound_rules
confirm_hash-IsSound rem v (some hash) = search sound_rules

confirm-IsSound : (request : Request) (id : ℕ) → Respects KeepsSound (confirm request id)
unfolding confirm
confirm-IsSound request id =
    search (sound_rules, or_attribute_error-IsSound, confirm_hash-IsSound) depth 9

approve_latest-IsSound :
    (env : Env) (request : Request) (id rid : ℕ) (rem : Option Remediation)
    → Respects KeepsSound (approve_latest env request id rid rem)
unfolding approve_latest
approve_latest-IsSound env request id rid none = search sound_rules
approve_latest-IsSound env request id rid (some rem) = search (sound_rules, confirm-IsSound)

pub approve-IsSound :
    (env : Env) (request : Request) (id rid : ℕ) → Respects KeepsSound (approve env request id rid)
unfolding approve
approve-IsSound env request id rid = search (sound_rules, approve_latest-IsSound) depth 9

refuse_transition-IsSound : (e : Error) → Respects KeepsSound (refuse_transition e)
unfolding refuse_transition
refuse_transition-IsSound (invalid_transition a b) = search sound_rules
refuse_transition-IsSound (value_error m) = search sound_rules
refuse_transition-IsSound attribute_error = search sound_rules
refuse_transition-IsSound stale_confirmation = search sound_rules
refuse_transition-IsSound (dispatch_failure m) = search sound_rules

pub mark_migrated-IsSound :
    (env : Env) (request : Request) (id rid : ℕ)
    → Respects KeepsSound (mark_migrated env request id rid)
unfolding mark_migrated
mark_migrated-IsSound env request id rid =
    search (sound_rules, guarded-IsSound, mark_migrated_manually-IsSound, refuse_transition-IsSound)
      depth 9

process_event-IsSound :
    (env : Env) (id event_type : Text) (e : Option Event)
    → Respects KeepsSound (process_event env id event_type e)
unfolding process_event
process_event-IsSound env id event_type none = search sound_rules
process_event-IsSound env id event_type (some e) = search (sound_rules, process_webhook-IsSound)

process_delivery-IsSound :
    (env : Env) (read_event : Text → Text → Option Event) (body event_type id : Text)
    → Respects KeepsSound (process_delivery env read_event body event_type id)
unfolding process_delivery
process_delivery-IsSound env read_event body event_type [] = search sound_rules
process_delivery-IsSound env read_event body event_type (c ∷ id) =
    process_event-IsSound env (c ∷ id) event_type (read_event event_type body)

-- The route of the webhooks, whatever its signature says.
pub github_webhook-IsSound :
    (hmac : Hmac) (env : Env) (read_event : Text → Text → Option Event) (headers : Headers)
    (body : Text)
    → Respects KeepsSound (github_webhook hmac env read_event headers body)
unfolding github_webhook
github_webhook-IsSound hmac env read_event headers body =
    search (sound_rules, process_delivery-IsSound)
