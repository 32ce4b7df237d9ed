-- ===== src/Jobs/Branches.antt =====
-- The branches of a repository that are scanned, the default branch first (jobs.configured_branches and
-- the sort in jobs.enqueue_scans_for_entry).
use patchline.Prelude.{
  ℕ, suc, Bool, ◌&&◌, ◌||◌, not, List, [], ◌∷◌, Text, same, strip, is_empty, take, filter, map, leb,
  sort_by, if◌then◌else◌,
}
use patchline.Models.{Repository, unset, branches, job_table, repository_table, entry_table}

-- [str(b).strip() for b in branches if str(b).strip()]
unfoldable pub clean_branches : List Text → List Text
clean_branches names = filter (λ b. not (is_empty b)) (map strip names)

abbrev or_default : List Text → Text → List Text
or_default [] default = default ∷ []
or_default (b ∷ names) default = take 10 (b ∷ names)

unfoldable pub configured_branches : Repository → List Text
unfolding clean_branches
configured_branches repo = elim repo.scan_branches [
  | unset ↦ repo.default_branch ∷ []
  | branches names ↦ or_default (clean_branches names) repo.default_branch
]

-- branches.index(b)
unfoldable pub index : Text → List Text → ℕ
index b [] = 0
index b (x ∷ names) = let rest = index b names in if same x b then 0 else suc rest

-- The key `(b != default_branch, branches.index(b))`, compared.
unfoldable pub branch_le : Text → List Text → Text → Text → Bool
unfolding index
branch_le default names a b =
    let da = same a default in
    let db = same b default in
    if da
    then not db || leb (index a names) (index b names)
    else not db && leb (index a names) (index b names)

unfoldable pub ordered_branches : Repository → List Text
unfolding configured_branches
ordered_branches repo =
    sort_by (branch_le repo.default_branch (configured_branches repo)) (configured_branches repo)
