-- ===== src/Webhooks/Repositories.antt =====
-- The rows of installations and repositories that webhooks keep up to date, and the scans that a new
-- repository gets.
use patchline.Prelude.{
  ℕ, Bool, true, false, ◌&&◌, not, Option, none, some, List, [], ◌∷◌, ◌++◌, Text, text, ◌==◌, find,
  filter, any, same, lower,
}
use patchline.Models.{
  Database, Repository, Installation, active, unset, ChangelogEntry, EntryStatus, ScanJob,
  repository_table, installation_table,
}
use patchline.Query.{modify, next_id}
use patchline.Tx.{Tx, pure, gets, change, for_each, ◌>>=◌}
use patchline.Jobs.Row.{is_pending_pair, is_active, priority_user}
use patchline.Jobs.Enqueue.{enqueue_scans_for_entry}

-- The keys of a repository that the code reads from a payload or an answer
pub record RepoData : Type 0 where
  pub full_name : Option Text
  pub default_branch : Option Text
  pub primary_language : Option Text

abbrev pub or_main : Option Text → Text
or_main (some (c ∷ s)) = c ∷ s
or_main _ = text "main"

-- `(language or "").lower() or None`
abbrev lowered : Option Text → Option Text
lowered (some (c ∷ s)) = some (lower (c ∷ s))
lowered _ = none

abbrev has_name : Text → Repository → Bool
has_name name repo = same repo.full_name name

abbrev new_repository : ℕ → ℕ → Text → RepoData → Repository
new_repository i inst name d = record {
  id = i;
  installation_id = inst;
  full_name = name;
  default_branch = or_main d.default_branch;
  primary_language = lowered d.primary_language;
  scan_branches = unset;
  connection_state = active;
  last_scan_at = none;
  deleted_at = none;
}

abbrev or_old : Option Text → Text → Text
or_old (some (c ∷ s)) old = c ∷ s
or_old _ old = old

abbrev or_old_language : Option Text → Option Text → Option Text
or_old_language (some (c ∷ s)) old = some (lower (c ∷ s))
or_old_language _ old = old

abbrev updated : ℕ → RepoData → Repository → Repository
updated inst d repo = record repo {
  installation_id = inst;
  connection_state = active;
  default_branch = or_old d.default_branch repo.default_branch;
  primary_language = or_old_language d.primary_language repo.primary_language;
}

unfoldable pub upsert_rows : ℕ → Text → RepoData → List Repository → List Repository
unfolding text lower
upsert_rows inst name d rows = elim (find (has_name name) rows) [
  | none ↦ rows ++ new_repository (next_id rows) inst name d ∷ []
  | some repo ↦ modify (has_name name) (updated inst d) rows
]

-- A repository without a name is passed over.
unfoldable pub upsert_named : ℕ → RepoData → Option Text → Tx (Unit {0})
unfolding upsert_rows
upsert_named inst d none = pure tt
upsert_named inst d (some []) = pure tt
upsert_named inst d (some (c ∷ s)) =
    change (λ db. record db { repositories = upsert_rows inst (c ∷ s) d db.repositories })

-- _upsert_repository
unfoldable pub upsert_repository : ℕ → RepoData → Tx (Unit {0})
unfolding upsert_named
upsert_repository inst d = upsert_named inst d d.full_name

abbrev pub has_github_id : ℕ → Installation → Bool
has_github_id i inst = inst.github_installation_id == i

abbrev pub new_installation : ℕ → ℕ → Text → Text → Installation
new_installation i github_id login type = record {
  id = i;
  github_installation_id = github_id;
  account_login = login;
  account_type = type;
  connection_state = active;
}

-- The row of the installation: its key, and the rows with it.
unfoldable pub ensure_installation : ℕ → Text → Text → List Installation → ℕ × List Installation
ensure_installation github_id login type rows = elim (find (has_github_id github_id) rows) [
  | some inst ↦ (inst.id, rows)
  | none ↦ (next_id rows, rows ++ new_installation (next_id rows) github_id login type ∷ [])
]

abbrev is_none : {A : Type 0} → Option A → Bool
is_none none = true
is_none (some a) = false

abbrev is_ready : EntryStatus → Bool
is_ready EntryStatus.ready = true
is_ready _ = false

abbrev ready_entries : Database → List ChangelogEntry
ready_entries db = filter (λ e. is_ready e.status && is_none e.deleted_at) db.entries

abbrev active_repositories : Database → List Repository
active_repositories db =
    filter (λ r. is_active r.connection_state && is_none r.deleted_at) db.repositories

-- The repositories that have no job of the entry that is queued or running
unfoldable pub scan_targets : ChangelogEntry → List Repository → List ScanJob → List Repository
scan_targets entry repos jobs = filter (λ r. not (any (is_pending_pair entry.id r.id) jobs)) repos

-- One round of the loop. No targets, no scans: `enqueue_scans_for_entry` of the empty list does nothing.
unfoldable pub scan_entry : ℕ → List Repository → ChangelogEntry → Tx (Unit {0})
unfolding scan_targets
scan_entry now repos entry = do
  targets ← gets (λ db. scan_targets entry repos db.jobs)
  enqueue_scans_for_entry now entry targets priority_user

-- _auto_scan_ready_entries
unfoldable pub auto_scan_ready_entries : ℕ → Tx (Unit {0})
unfolding scan_entry
auto_scan_ready_entries now = do
  ready ← gets ready_entries
  repos ← gets active_repositories
  for_each ready (scan_entry now repos)
