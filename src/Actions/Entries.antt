-- ===== src/Actions/Entries.antt =====
-- The routes of an entry: its creation, the scans, the flags, and the generation of a remediation.
use patchline.Prelude.{
  ℕ, Bool, true, false, ◌&&◌, ◌==◌, Option, none, some, List, [], ◌∷◌, ◌++◌, Text, text, same,
  or_blank, or_else, length, take, filter, find, reverse, leb, strip, lower, is_empty, show,
  if◌then◌else◌,
}
use patchline.Models.{
  ChangelogEntry, EntryStatus, Repository, Vendor, Occurrence, FeedbackFlag, ScanJob, JobStatus,
  entry_table, repository_table, occurrence_table, job_table, flag_table,
}
use patchline.Query.{get, modify, next_id}
use patchline.Tx.{Tx, pure, gets, change, session_scope, ◌>>=◌, ◌>>◌}
use patchline.Env.{Env}
use patchline.Web.{Response, redirect, refused}
use patchline.Languages.{is_installed}
use patchline.Slugify.{slugify_title}
use patchline.Scanning.Finish.{or_attribute_error}
use patchline.Jobs.Row.{priority_user, is_active}
use patchline.Jobs.Enqueue.{enqueue_scans_for_entry, enqueue_rescan}
use patchline.Remediation.Generate.{enqueue_remediation}
use patchline.Actions.{Request, form_get, guarded}

-- The fields that a form for an entry can have wrong.
pub data FormError : Type 0 where
  bad_title bad_prior_api_shape bad_target_contract bad_language : FormError

abbrev is_within : ℕ → Text → Bool
is_within bound s = leb 1 (length s) && leb (length s) bound

abbrev error_unless : Bool → FormError → List FormError
error_unless ok e = if ok then [] else e ∷ []

unfoldable pub field : Text → Request → Text
unfolding form_get strip
field key request = strip (or_blank (form_get key request))

-- _validate_entry_form
unfoldable pub validate_entry_form : Request → List FormError
unfolding field lower is_empty is_installed
validate_entry_form request =
    error_unless (is_within 200 (field (text "title") request)) bad_title
    ++ error_unless (is_within 5000 (field (text "prior_api_shape") request)) bad_prior_api_shape
    ++ error_unless (is_within 5000 (field (text "target_contract") request)) bad_target_contract
    ++ error_unless (is_installed (lower (field (text "language") request))) bad_language

-- f"/entries/{id}"
unfoldable pub entry_page : ℕ → Text
unfolding show
entry_page id = text "/entries/" ++ show id

abbrev some_text : Text → Option Text
some_text [] = none
some_text (c ∷ s) = some (c ∷ s)

-- The slug of the title, else one that is made of the key.
abbrev slug_for : Request → ℕ → Text
unfolding slugify_title form_get show
slug_for request id =
    or_else (slugify_title 50 (form_get (text "title") request)) (text "entry-" ++ show id)

unfoldable pub new_entry : Env → Request → Vendor → ℕ → ChangelogEntry
unfolding slug_for field lower
new_entry env request vendor id = record {
  id = id;
  vendor_id = vendor.id;
  title = field (text "title") request;
  slug = some (slug_for request id);
  prior_api_shape = field (text "prior_api_shape") request;
  target_contract = field (text "target_contract") request;
  language = lower (field (text "language") request);
  status = EntryStatus.draft;
  created_at = env.now;
  deleted_at = none;
}

unfoldable pub create_entry : Env → Request → List FormError → Tx Response
unfolding new_entry or_attribute_error entry_page
create_entry env request (e ∷ errors) = pure (refused 422)
create_entry env request [] = do
  id ← session_scope (do
    vendor ← or_attribute_error request.state.vendor
    i ← gets (λ db. next_id db.entries)
    change (λ db. record db { entries = db.entries ++ new_entry env request vendor i ∷ [] })
    pure i)
  pure (redirect (entry_page id))

unfoldable pub entry_create : Env → Request → Tx Response
unfolding guarded validate_entry_form create_entry
entry_create env request = guarded request (create_entry env request (validate_entry_form request))

abbrev is_kept : Repository → Bool
is_kept repo = elim repo.deleted_at [ none ↦ true | some t ↦ false ]

abbrev is_ready : EntryStatus → Bool
is_ready EntryStatus.ready = true
is_ready _ = false

unfoldable pub scan_page : ℕ → Response
unfolding entry_page
scan_page id = redirect (entry_page id ++ text "/scan")

unfoldable pub trigger_with : Env → ℕ → Option ChangelogEntry → Tx Response
unfolding filter enqueue_scans_for_entry scan_page
trigger_with env id none = pure (refused 404)
trigger_with env id (some entry) =
    if is_ready entry.status
    then (do
      repos ← gets (λ db. filter is_kept db.repositories)
      enqueue_scans_for_entry env.now entry repos priority_user
      pure (scan_page id))
    else pure (refused 409)

unfoldable pub scan_trigger : Env → Request → ℕ → Tx Response
unfolding guarded get trigger_with
scan_trigger env request entry_id = guarded request (
    session_scope
      (do entry ← gets (λ db. get entry_id db.entries); trigger_with env entry_id entry))

unfoldable pub rescan_with : Env → ℕ → Option ChangelogEntry → Option Repository → Tx Response
unfolding enqueue_rescan scan_page
rescan_with env id (some entry) (some repo) =
    if is_active repo.connection_state
    then (do enqueue_rescan env.now entry repo none priority_user 0; pure (scan_page id))
    else pure (refused 409)
rescan_with env id _ _ = pure (refused 404)

unfoldable pub rescan_repo : Env → Request → ℕ → ℕ → Tx Response
unfolding guarded get rescan_with
rescan_repo env request entry_id rid = guarded request (
    session_scope (do
      entry ← gets (λ db. get entry_id db.entries)
      repo ← gets (λ db. get rid db.repositories)
      rescan_with env entry_id entry repo))

-- filter_by(occurrence_id=…, vendor_id=…, deleted_at=None)
abbrev pub is_flag : ℕ → ℕ → FeedbackFlag → Bool
is_flag oid vendor_id flag =
    flag.occurrence_id == oid
    && flag.vendor_id == vendor_id
    && (elim flag.deleted_at [ none ↦ true | some t ↦ false ])

-- A flag that is there is toggled off.
unfoldable pub toggle_flag :
    ℕ → ℕ → ℕ → Text → Option FeedbackFlag → List FeedbackFlag → List FeedbackFlag
toggle_flag now oid vendor_id reason (some flag) flags =
    modify (is_flag oid vendor_id) (λ f. record f { deleted_at = some now }) flags
toggle_flag now oid vendor_id reason none flags =
    flags
    ++ record {
      id = next_id flags;
      occurrence_id = oid;
      vendor_id = vendor_id;
      reason = some (take 500 reason);
      created_at = now;
      deleted_at = none;
    }
      ∷ []

unfoldable pub flag_with : Env → Request → ℕ → Option Occurrence → Tx Response
unfolding toggle_flag find or_attribute_error form_get scan_page
flag_with env request oid none = pure (refused 404)
flag_with env request oid (some occ) = do
  vendor ← or_attribute_error request.state.vendor
  let reason = or_else (or_blank (form_get (text "reason") request)) (text "false positive")
  change (λ db. record db {
    flags =
        toggle_flag env.now oid vendor.id reason (find (is_flag oid vendor.id) db.flags) db.flags;
  })
  found ← gets (λ db. get occ.scan_job_id db.jobs)
  job ← or_attribute_error found
  pure (scan_page job.entry_id)

unfoldable pub flag_occurrence : Env → Request → ℕ → Tx Response
unfolding guarded get flag_with
flag_occurrence env request oid =
    guarded request
      (session_scope (do occ ← gets (λ db. get oid db.occurrences); flag_with env request oid occ))

abbrev is_done : JobStatus → Bool
is_done JobStatus.done = true
is_done _ = false

-- The last finished scan of the default branch: rows are kept in the order of their keys.
unfoldable pub last_scan : ℕ → Repository → List ScanJob → Option ScanJob
unfolding find same
last_scan entry_id repo jobs =
    find
      (λ j.
        j.entry_id == entry_id
        && j.repository_id == repo.id
        && same j.branch repo.default_branch
        && is_done j.status)
      (reverse jobs)

-- f"/entries/{entry_id}/repos/{rid}/review"
unfoldable pub review_page : ℕ → ℕ → Text
unfolding show entry_page
review_page entry_id rid = entry_page entry_id ++ text "/repos/" ++ show rid ++ text "/review"

unfoldable pub generate_from : ℕ → ℕ → Option ScanJob → Tx Response
unfolding enqueue_remediation review_page
generate_from entry_id rid none = pure (refused 409)
generate_from entry_id rid (some job) =
    if job.occurrences_count == 0 then pure (refused 409) else (do
      enqueue_remediation entry_id rid (some job.id)
      pure (redirect (review_page entry_id rid)))

unfoldable pub generate_with : ℕ → ℕ → Option ChangelogEntry → Option Repository → Tx Response
unfolding last_scan generate_from
generate_with entry_id rid (some entry) (some repo) =
    if is_active repo.connection_state
    then (do job ← gets (λ db. last_scan entry_id repo db.jobs); generate_from entry_id rid job)
    else pure (refused 409)
generate_with entry_id rid _ _ = pure (refused 404)

-- The route of the same name as the worker's generate_remediation.
unfoldable pub generate : Request → ℕ → ℕ → Tx Response
unfolding guarded get generate_with
generate request entry_id rid = guarded request (
    session_scope (do
      entry ← gets (λ db. get entry_id db.entries)
      repo ← gets (λ db. get rid db.repositories)
      generate_with entry_id rid entry repo))
