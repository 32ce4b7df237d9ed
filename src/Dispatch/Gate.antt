-- ===== src/Dispatch/Gate.antt =====
-- The confirmation gate of dispatch_remediation: what is checked before anything goes to GitHub.
use patchline.Prelude.{
  ℕ, Bool, true, false, ◌&&◌, not, Option, none, some, List, [], ◌∷◌, ◌++◌, Text, text, ◌==◌, any,
  same, or_blank, if◌then◌else◌,
}
use patchline.Models.{
  Database, Remediation, RemediationStatus, Confirmation, ChangelogEntry, Repository, PullRequest,
  PullRequestState, remediation_table, entry_table, repository_table, installation_table,
  confirmation_table,
}
use patchline.Query.{get, next_id}
use patchline.Tx.{Tx, pure, raise, gets, change, stale_confirmation, dispatch_failure, ◌>>=◌, ◌>>◌}
use patchline.Jobs.Row.{is_active}
use patchline.Scanning.Start.{state_word}
use patchline.Dispatch.Github.{Tools, Provenance}
use patchline.Dispatch.Branch.{branch_base_name}

abbrev pub confirmation_row : ℕ → Remediation → ℕ → Text → Confirmation
confirmation_row i rem vendor_id hash = record {
  id = i;
  remediation_id = rem.id;
  entry_id = rem.entry_id;
  repository_id = rem.repository_id;
  vendor_id = vendor_id;
  diff_sha256 = hash;
}

-- record_confirmation, for a remediation that has a hash: the column may not be NULL.
unfoldable pub record_confirmation : Remediation → ℕ → Text → Tx Confirmation
record_confirmation rem vendor_id hash = do
  i ← gets (λ db. next_id db.confirmations)
  let row = confirmation_row i rem vendor_id hash
  change (λ db. record db { confirmations = db.confirmations ++ row ∷ [] })
  pure row

-- filter_by(remediation_id=…, diff_sha256=…)
abbrev pub confirms : ℕ → Text → Confirmation → Bool
confirms rem_id hash k = k.remediation_id == rem_id && same k.diff_sha256 hash

unfoldable pub confirmation_matches : Remediation → List Confirmation → Bool
confirmation_matches rem rows = elim rem.diff_sha256 [
  | some (c ∷ s) ↦ any (confirms rem.id (c ∷ s)) rows
  | _ ↦ false
]

-- What the first transaction reads for the rest.
pub record DispatchContext : Type 0 where
  pub entry_id : ℕ
  pub repo_id : ℕ
  pub repo_full_name : Text
  pub default_branch : Text
  pub base_name : Text
  pub diff_sha256 : Text
  pub diff_text : Text
  pub provenance : Option Provenance
  pub entry_title : Text
  pub target_contract : Text
  -- the branches of the pull requests of the pair, and whether each one is live
  pub existing : List (Text × Bool)
  -- _installation_id_for_repo
  pub installation_id : Option ℕ

abbrev pub is_dispatchable : RemediationStatus → Bool
is_dispatchable RemediationStatus.ready = true
is_dispatchable RemediationStatus.dispatch_failed = true
is_dispatchable _ = false

unfoldable pub remediation_word : RemediationStatus → Text
unfolding text
remediation_word RemediationStatus.generating = text "generating"
remediation_word RemediationStatus.ready = text "ready"
remediation_word RemediationStatus.generation_failed = text "generation_failed"
remediation_word RemediationStatus.dispatch_failed = text "dispatch_failed"
remediation_word RemediationStatus.dispatched = text "dispatched"

abbrev is_live : PullRequestState → Bool
is_live PullRequestState.dispatch_failed = false
is_live _ = true

abbrev add_branch : PullRequest → List (Text × Bool) → List (Text × Bool)
add_branch row rest = elim row.branch_name [
  | some (c ∷ s) ↦ (c ∷ s, is_live row.state) ∷ rest
  | _ ↦ rest
]

unfoldable pub existing_branches : ℕ → ℕ → List PullRequest → List (Text × Bool)
existing_branches repo entry [] = []
existing_branches repo entry (row ∷ rows) =
    let rest = existing_branches repo entry rows in
    if row.repository_id == repo && row.entry_id == entry then add_branch row rest else rest

abbrev provenance_of : Tools → Option Text → Option Provenance
provenance_of tools (some (c ∷ s)) = tools.load_provenance (c ∷ s)
provenance_of tools _ = none

abbrev installation_of : Database → Repository → Option ℕ
installation_of db repo = elim (get repo.installation_id db.installations) [
  | none ↦ none
  | some inst ↦ some inst.github_installation_id
]

unfoldable pub dispatch_context :
    Tools → Remediation → ChangelogEntry → Repository → Database → DispatchContext
unfolding branch_base_name existing_branches
dispatch_context tools rem entry repo db = record {
  entry_id = entry.id;
  repo_id = repo.id;
  repo_full_name = repo.full_name;
  default_branch = repo.default_branch;
  base_name = branch_base_name tools entry (or_blank rem.diff_sha256);
  diff_sha256 = or_blank rem.diff_sha256;
  diff_text = or_blank rem.diff_content;
  provenance = provenance_of tools rem.provenance_json;
  entry_title = entry.title;
  target_contract = entry.target_contract;
  existing = existing_branches repo.id entry.id db.pull_requests;
  installation_id = installation_of db repo;
}

unfoldable pub gate_target :
    Tools → Remediation → Option ChangelogEntry → Option Repository → Tx DispatchContext
unfolding dispatch_context text state_word
gate_target tools rem (some entry) (some repo) =
    if is_active repo.connection_state
    then gets (dispatch_context tools rem entry repo)
    else raise
        (dispatch_failure (text "repository connection_state=" ++ state_word repo.connection_state))
gate_target tools rem _ _ = raise (dispatch_failure (text "entry or repository missing"))

unfoldable pub gate_remediation : Tools → Option Remediation → Tx DispatchContext
unfolding confirmation_matches gate_target text remediation_word
gate_remediation tools none = raise (dispatch_failure (text "remediation missing"))
gate_remediation tools (some rem) = do
  confirmed ← gets (λ db. confirmation_matches rem db.confirmations)
  entry ← gets (λ db. get rem.entry_id db.entries)
  repo ← gets (λ db. get rem.repository_id db.repositories)
  if not (is_dispatchable rem.status)
      then raise (
          dispatch_failure (
            text "remediation status is "
            ++ remediation_word rem.status
            ++ text ", not dispatchable"))
      else (if confirmed then gate_target tools rem entry repo else raise stale_confirmation)

unfoldable pub gate : Tools → ℕ → Tx DispatchContext
unfolding gate_remediation
gate tools remediation_id = do
  rem ← gets (λ db. get remediation_id db.remediations)
  gate_remediation tools rem
