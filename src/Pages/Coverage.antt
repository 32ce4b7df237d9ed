-- ===== src/Pages/Coverage.antt =====
-- The coverage pages of an entry and of a repository, and the labels of the statuses.
use patchline.Prelude.{
  ◌*◌, ℕ, ◌-◌, Bool, true, false, ◌&&◌, ◌==◌, ltb, Option, none, some, List, [], ◌++◌, Text, text,
  if◌then◌else◌, find, filter, map, reverse,
}
use patchline.Models.{
  Database, CoverageState, Status, Repository, ChangelogEntry, no_hits, scanning, not_scanned,
  pattern_detected, remediation_pending, pr_open, pr_rejected, migrated, migration_incomplete,
  scan_failed, entry_table, repository_table,
}
use patchline.Query.{get}

-- STATUS_META
unfoldable pub status_meta : Status → Text × Text
status_meta not_scanned = (text "○", text "Not scanned")
status_meta scanning = (text "…", text "Scanning")
status_meta no_hits = (text "✓", text "No occurrences")
status_meta pattern_detected = (text "⚠", text "Pattern detected")
status_meta remediation_pending = (text "◐", text "Remediation pending")
status_meta pr_open = (text "↗", text "PR open")
status_meta pr_rejected = (text "✗", text "PR rejected")
status_meta migrated = (text "✔", text "Migrated")
status_meta migration_incomplete = (text "⚠", text "Migration incomplete")
status_meta scan_failed = (text "✗", text "Scan failed")
status_meta Status.dispatch_failed = (text "✗", text "Dispatch failed")
status_meta Status.skipped_language = (text "⊘", text "Skipped (language)")

abbrev icon : Status → Text
unfolding status_meta
icon s = (status_meta s).0

-- The verification is more than seven days old.
abbrev verify_hint : ℕ → ℕ → Text
verify_hint now ts = if ltb (7 * 86400) (now - ts) then text " — re-verify suggested" else []

-- The date of a time is a parameter.
unfoldable pub migrated_label : (ℕ → Text) → ℕ → Bool → Option ℕ → Text
migrated_label date now true verified = text " migrated (manual)"
migrated_label date now false none = text " migrated"
migrated_label date now false (some ts) =
    text " migrated (verified " ++ date ts ++ text ")" ++ verify_hint now ts

unfoldable pub label_for : (ℕ → Text) → ℕ → CoverageState → Status → Text
unfolding status_meta migrated_label
label_for date now row migrated =
    icon migrated ++ migrated_label date now row.manual_migrated row.verification_timestamp
label_for date now row s = icon s ++ text " " ++ (status_meta s).1

unfoldable pub status_label : (ℕ → Text) → ℕ → CoverageState → Text
unfolding label_for
status_label date now row = label_for date now row row.status

abbrev is_kept : Repository → Bool
is_kept repo = elim repo.deleted_at [ none ↦ true | some t ↦ false ]

pub record CoverageItem : Type 0 where
  pub repo : Repository
  pub status : Status
  pub label : Text

-- A pair without a row is shown as not scanned.
unfoldable pub entry_item : (ℕ → Text) → ℕ → Repository → Option CoverageState → CoverageItem
unfolding status_label
entry_item date now repo none = record {
  repo = repo;
  status = not_scanned;
  label = icon not_scanned ++ text " Not scanned";
}
entry_item date now repo (some row) = record {
  repo = repo;
  status = row.status;
  label = status_label date now row;
}

-- The last row of a repository in the dictionary `states`.
unfoldable pub state_of : ℕ → ℕ → List CoverageState → Option CoverageState
unfolding find
state_of entry_id rid rows =
    find (λ r. r.entry_id == entry_id && r.repository_id == rid) (reverse rows)

unfoldable pub entry_items : (ℕ → Text) → ℕ → ℕ → Database → List CoverageItem
unfolding filter entry_item state_of
entry_items date now entry_id db =
    map (λ repo. entry_item date now repo (state_of entry_id repo.id db.coverage))
      (filter is_kept db.repositories)

-- The page, unless the entry is missing.
unfoldable pub entry_coverage :
    (ℕ → Text) → ℕ → ℕ → Database → Option (ChangelogEntry × List CoverageItem)
unfolding get entry_items
entry_coverage date now entry_id db = elim (get entry_id db.entries) [
  | none ↦ none
  | some entry ↦ some (entry, entry_items date now entry_id db)
]

pub record RepoItem : Type 0 where
  pub entry : Option ChangelogEntry
  pub status : Status
  pub label : Text
  pub last_updated_at : ℕ

unfoldable pub repo_items : (ℕ → Text) → ℕ → ℕ → Database → List RepoItem
unfolding filter get status_label
repo_items date now rid db =
    map
      (λ row. record {
        entry = get row.entry_id db.entries;
        status = row.status;
        label = status_label date now row;
        last_updated_at = row.last_updated_at;
      })
      (filter (λ r. r.repository_id == rid) db.coverage)

unfoldable pub repo_coverage : (ℕ → Text) → ℕ → ℕ → Database → Option (Repository × List RepoItem)
unfolding get repo_items
repo_coverage date now rid db = elim (get rid db.repositories) [
  | none ↦ none
  | some repo ↦ some (repo, repo_items date now rid db)
]
