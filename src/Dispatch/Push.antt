-- ===== src/Dispatch/Push.antt =====
-- The sequence of calls that dispatch_remediation makes, outside any transaction, once the gate is
-- passed. The first exception ends it.
use patchline.Prelude.{
  ℕ, zero, suc, Bool, true, false, Option, none, some, List, [], ◌∷◌, ◌++◌, Text, text, take,
}
use patchline.Diff.Apply.{Applied, ok, err, apply_unified_diff}
use patchline.Diff.Files.{Original, contents, missing, undecodable, per_file_diffs}
use patchline.Dispatch.Github.{
  Call, answer, fail, other, Github, Tools, TreeItem, OpenedPull, ◌>>=◌, ◌>>◌,
}
use patchline.Dispatch.Body.{compose_pr_body}
use patchline.Dispatch.Branch.{choose_branch}
use patchline.Dispatch.Gate.{DispatchContext}

-- The branch, and the pull request that was opened for it.
pub record Pushed : Type 0 where
  pub branch_name : Text
  pub pull : OpenedPull

-- `installation_id` counts as missing if it is 0.
abbrev is_known : Option ℕ → Option ℕ
is_known none = none
is_known (some zero) = none
is_known (some (suc n)) = some (suc n)

abbrev or_default : Option Text → Text → Text
or_default (some (c ∷ s)) d = c ∷ s
or_default _ d = d

-- One item of _patched_file_contents: a pair, or the text of the exception.
pub data Patched : Type 0 where
  rebuilt : Text × Text → Patched
  not_rebuilt : Text → Patched

abbrev patched : Applied Text → Text → Patched
patched (ok content) path = rebuilt (path, content)
patched (err e) path = not_rebuilt (text "cannot reconstruct " ++ path)

-- The file's hunks on its text, or on nothing if it cannot be opened. The exception of bytes that are no
-- UTF-8 is not an OSError and leaves the generator.
unfoldable pub patched_file : Text → Text → (Text → Original) → Patched
unfolding apply_unified_diff text
patched_file path file_diff archive = elim (archive path) [
  | contents original ↦ patched (apply_unified_diff original file_diff) path
  | missing ↦ patched (apply_unified_diff [] file_diff) path
  | undecodable message ↦ not_rebuilt message
]

module _ {W : Type 0} (gh : Github W) (tools : Tools) (c : DispatchContext) where
  unfoldable pub mint : Call W (Option Text)
  unfolding answer ◌>>=◌
  mint w = elim (is_known c.installation_id) [
    | none ↦ answer none w
    | some i ↦ (gh.mint_installation_token i >>= λ t. answer (some t)) w
  ]

  unfoldable pub require_sha : Option Text → Call W Text
  unfolding answer fail text
  require_sha (some (d ∷ s)) = answer (d ∷ s)
  require_sha _ = fail (other (text "could not resolve default branch HEAD sha"))

  abbrev blob_of : Patched → Option Text → Call W TreeItem
  blob_of (not_rebuilt message) token = fail (other message)
  blob_of (rebuilt (path', content)) token = do
    sha ← gh.create_blob c.repo_full_name (tools.base64 content) token
    answer (record { path = path'; sha = sha })

  -- The loop over _patched_file_contents: a generator, so that each file is patched right before its
  -- blob is made.
  unfoldable pub create_blobs :
      List (Text × Text) → (Text → Original) → Option Text → Call W (List TreeItem)
  unfolding answer fail text patched_file
  create_blobs [] archive token = answer []
  create_blobs ((path, file_diff) ∷ files) archive token = do
    item ← blob_of (patched_file path file_diff archive) token
    items ← create_blobs files archive token
    answer (item ∷ items)

  unfoldable pub fill_branch : Text → Text → Text → Option Text → Call W (Unit {0})
  unfolding create_blobs per_file_diffs text
  fill_branch default_branch base_sha branch_name token = do
    archive ← gh.fetch_archive c.repo_full_name default_branch base_sha token
    gh.create_ref c.repo_full_name (text "refs/heads/" ++ branch_name) base_sha token
    items ← create_blobs (per_file_diffs c.diff_text) archive token
    tree ← gh.create_tree c.repo_full_name base_sha items token
    commit ←
        gh.create_commit c.repo_full_name (text "patchline: migrate to " ++ c.entry_title) tree
          (base_sha ∷ []) token
    gh.update_patchline_ref c.repo_full_name branch_name commit token

  abbrev fill_unless : Bool → Call W (Unit {0}) → Call W (Unit {0})
  fill_unless true m = answer tt
  fill_unless false m = m

  unfoldable pub push : ℕ → Call W Pushed
  unfolding mint require_sha fill_branch choose_branch compose_pr_body answer text
  push now = do
    token ← mint
    found ← gh.get_repo c.repo_full_name token
    let default_branch = or_default found c.default_branch
    base_ref ← gh.get_branch_ref c.repo_full_name default_branch token
    base_sha ← require_sha base_ref
    chosen ←
        choose_branch gh tools c.repo_full_name default_branch c.base_name c.diff_sha256 c.existing
          token now
    fill_unless chosen.1 (fill_branch default_branch base_sha chosen.0 token)
    pull ←
        gh.create_pull_request c.repo_full_name chosen.0 default_branch
          (text "[Patchline] " ++ c.entry_title)
          (compose_pr_body c.entry_title (some (take 800 c.target_contract)) c.provenance none)
          token
    answer (record { branch_name = chosen.0; pull = pull })
