-- ===== src/Pages/Review.antt =====
-- The review page: the flags of a remediation and the lines of its diff; the patch file; the metrics.
use patchline.Prelude.{
  ◌+◌, ℕ, Bool, true, false, not, ◌&&◌, ◌||◌, ◌==◌, leb, Option, none, some, List, [], ◌∷◌, Text,
  text, same, any, starts_with, if◌then◌else◌, map, count_if,
}
use patchline.Models.{
  Database, Remediation, RemediationStatus, Confirmation, JobStatus, ChangelogEntry, Repository,
  entry_table, repository_table,
}
use patchline.Query.{get}
use patchline.Diff.Lines.{split_lines}
use patchline.Diff.Files.{per_file_diffs}
use patchline.Actions.Approve.{latest_remediation}

-- `filter_by(diff_sha256=None)` matches rows without a hash, and there are none.
abbrev has_hash : Option Text → Text → Bool
has_hash none stored = false
has_hash (some hash) stored = same stored hash

unfoldable pub is_confirmed : Remediation → List Confirmation → Bool
unfolding any same
is_confirmed rem rows =
    any (λ k. k.remediation_id == rem.id && has_hash rem.diff_sha256 k.diff_sha256) rows

unfoldable pub has_any_confirmation : ℕ → ℕ → List Confirmation → Bool
unfolding any
has_any_confirmation entry_id rid rows =
    any (λ k. k.entry_id == entry_id && k.repository_id == rid) rows

abbrev is_ready : RemediationStatus → Bool
is_ready RemediationStatus.ready = true
is_ready _ = false

abbrev is_given : Option Text → Bool
is_given none = false
is_given (some hash) = true

-- An older diff of the pair was approved, and this one was not.
unfoldable pub is_stale_review : ℕ → ℕ → Remediation → List Confirmation → Bool
unfolding is_confirmed has_any_confirmation
is_stale_review entry_id rid rem rows =
    is_ready rem.status
    && not (is_confirmed rem rows)
    && is_given rem.diff_sha256
    && has_any_confirmation entry_id rid rows

pub data LineKind : Type 0 where
  hdr hunk add del ctx : LineKind

unfoldable pub line_kind : Text → LineKind
unfolding starts_with
line_kind line =
    if starts_with (text "+++") line || starts_with (text "---") line
    then hdr
    else (if starts_with (text "@@") line
        then hunk
        else (if starts_with (text "+") line
            then add
            else (if starts_with (text "-") line then del else ctx)))

-- _render_diff_files
unfoldable pub render_diff_files : Text → List (Text × List (Text × LineKind))
unfolding per_file_diffs split_lines line_kind
render_diff_files diff_text =
    map (λ f. (f.0, map (λ line. (line, line_kind line)) (split_lines f.1)))
      (per_file_diffs diff_text)

pub record ReviewPage : Type 0 where
  pub entry : ChangelogEntry
  pub repo : Repository
  pub remediation : Option Remediation
  pub confirmed : Bool
  pub stale_confirmation : Bool
  pub diff_files : List (Text × List (Text × LineKind))

-- `_render_diff_files(rem.diff_content) if rem.diff_content else []`
abbrev files_of : Option Text → List (Text × List (Text × LineKind))
unfolding render_diff_files
files_of none = []
files_of (some []) = []
files_of (some (c ∷ s)) = render_diff_files (c ∷ s)

unfoldable pub review_of :
    ℕ → ℕ → Database → ChangelogEntry → Repository → Option Remediation → ReviewPage
unfolding is_confirmed is_stale_review files_of
review_of entry_id rid db entry repo none = record {
  entry = entry;
  repo = repo;
  remediation = none;
  confirmed = false;
  stale_confirmation = false;
  diff_files = [];
}
review_of entry_id rid db entry repo (some rem) = record {
  entry = entry;
  repo = repo;
  remediation = some rem;
  confirmed = is_confirmed rem db.confirmations;
  stale_confirmation = is_stale_review entry_id rid rem db.confirmations;
  diff_files = files_of rem.diff_content;
}

abbrev review_with :
    ℕ → ℕ → Database → Option ChangelogEntry → Option Repository → Option ReviewPage
unfolding latest_remediation review_of
review_with entry_id rid db (some entry) (some repo) =
    some (review_of entry_id rid db entry repo (latest_remediation entry_id rid db.remediations))
review_with entry_id rid db _ _ = none

-- The page, unless the entry or the repository is missing; the provenance is left out.
unfoldable pub review : ℕ → ℕ → Database → Option ReviewPage
unfolding get review_with
review entry_id rid db =
    review_with entry_id rid db (get entry_id db.entries) (get rid db.repositories)

abbrev patch_of : Option Remediation → Option Text
patch_of none = none
patch_of (some rem) = elim rem.diff_content [ some (c ∷ s) ↦ some (c ∷ s) | _ ↦ none ]

-- The text of the patch file, unless there is none.
unfoldable pub download_patch : ℕ → ℕ → Database → Option Text
unfolding latest_remediation
download_patch entry_id rid db = patch_of (latest_remediation entry_id rid db.remediations)

abbrev is_queued : JobStatus → Bool
is_queued JobStatus.queued = true
is_queued _ = false

abbrev is_failed : JobStatus → Bool
is_failed JobStatus.failed = true
is_failed _ = false

abbrev is_recent : ℕ → Option ℕ → Bool
is_recent now none = false
is_recent now (some t) = leb now (t + 3600)

-- The queue depth and the errors of the last hour, as /metrics gives them.
unfoldable pub metrics : ℕ → Database → ℕ × ℕ
unfolding count_if
metrics now db = (
  count_if (λ j. is_queued j.status) db.jobs,
  count_if (λ j. is_failed j.status && is_recent now j.completed_at) db.jobs,
)
