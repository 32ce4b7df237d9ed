-- ===== src/Pages/Home.antt =====
-- The home page: for each repository, how many entries are open, migrated and not scanned.
use native.Mathlib.Omega.{arith}
use patchline.Prelude.{
  any, ℕ, suc, ◌+◌, ◌-◌, ◌≡◌, refl, inl, inr, Bool, true, false, ◌&&◌, Option, none, some, List, [],
  ◌∷◌, Text, text, ◌==◌, if◌then◌else◌, filter, map, count_if, Bool-cases,
}
use patchline.Models.{
  Database, CoverageState, Status, Repository, ConnectionState, ChangelogEntry, Installation,
  installation_table,
}
use patchline.Query.{get}
use patchline.Coverage.{is_open_change, same_status}

-- A bucket of `by_repo`.
pub record Bucket : Type 0 where
  pub open_changes : ℕ
  pub migrated : ℕ
  pub not_scanned : ℕ
  pub seen : ℕ

abbrev pub no_bucket : Bucket
no_bucket = record { open_changes = 0; migrated = 0; not_scanned = 0; seen = 0 }

-- The bucket behind one more row.
unfoldable pub count_row : Status → Bucket → Bucket
unfolding is_open_change
count_row s b =
    if is_open_change s
    then record b { seen = suc b.seen; open_changes = suc b.open_changes }
    else (if same_status s Status.migrated
        then record b { seen = suc b.seen; migrated = suc b.migrated }
        else (if same_status s Status.not_scanned
            then record b { seen = suc b.seen; not_scanned = suc b.not_scanned }
            else record b { seen = suc b.seen }))

-- by_repo.setdefault(id, …), changed in place
unfoldable pub put_row : ℕ → Status → List (ℕ × Bucket) → List (ℕ × Bucket)
unfolding count_row
put_row id s [] = (id, count_row s no_bucket) ∷ []
put_row id s ((i, b) ∷ buckets) =
    let rest = put_row id s buckets in
    if i == id then (i, count_row s b) ∷ buckets else (i, b) ∷ rest

-- The loop over the rows.
unfoldable pub count_rows : List CoverageState → List (ℕ × Bucket) → List (ℕ × Bucket)
unfolding put_row
count_rows [] buckets = buckets
count_rows (row ∷ rows) buckets = count_rows rows (put_row row.repository_id row.status buckets)

-- by_repo.get(id, …)
unfoldable pub bucket_of : ℕ → List (ℕ × Bucket) → Bucket
bucket_of id [] = no_bucket
bucket_of id ((i, b) ∷ buckets) = if i == id then b else bucket_of id buckets

pub record HomeItem : Type 0 where
  pub id : ℕ
  pub full_name : Text
  pub account : Text
  pub connection_state : ConnectionState
  pub open_changes : ℕ
  pub migrated : ℕ
  pub not_scanned : ℕ

abbrev account_of : Option Installation → Text
account_of none = text "unknown"
account_of (some inst) = inst.account_login

-- Entries without a row on the board are not scanned either.
unfoldable pub home_item : Database → ℕ → List (ℕ × Bucket) → Repository → HomeItem
unfolding get bucket_of
home_item db total_entries buckets repo =
    let counts = bucket_of repo.id buckets in
    record {
      id = repo.id;
      full_name = repo.full_name;
      account = account_of (get repo.installation_id db.installations);
      connection_state = repo.connection_state;
      open_changes = counts.open_changes;
      migrated = counts.migrated;
      not_scanned = counts.not_scanned + (total_entries - counts.seen);
    }

abbrev is_kept_repository : Repository → Bool
is_kept_repository repo = elim repo.deleted_at [ none ↦ true | some t ↦ false ]

abbrev is_kept_entry : ChangelogEntry → Bool
is_kept_entry entry = elim entry.deleted_at [ none ↦ true | some t ↦ false ]

unfoldable pub home : Database → List HomeItem
unfolding filter count_if count_rows home_item
home db =
    map (home_item db (count_if is_kept_entry db.entries) (count_rows db.coverage []))
      (filter is_kept_repository db.repositories)

-- The rows of a repository that have a status of a kind.
abbrev pub row_of : ℕ → (Status → Bool) → CoverageState → Bool
row_of id kind row = row.repository_id == id && kind row.status

-- What a bucket counts, row by row.
pub CountsAs : ℕ → List CoverageState → Bucket → Bucket → Type 0
CountsAs id rows before after =
    (after.open_changes ≡ before.open_changes + count_if (row_of id is_open_change) rows)
    × (after.migrated
        ≡ before.migrated + count_if (row_of id (λ s. same_status s Status.migrated)) rows)
    × (after.not_scanned
        ≡ before.not_scanned + count_if (row_of id (λ s. same_status s Status.not_scanned)) rows)
    × (after.seen ≡ before.seen + count_if (row_of id (λ s. true)) rows)

bucket_of-put_row :
    (id i : ℕ) (s : Status) (buckets : List (ℕ × Bucket))
    → bucket_of id (put_row i s buckets)
      ≡ (if i == id then count_row s (bucket_of id buckets) else bucket_of id buckets)
unfolding put_row bucket_of
bucket_of-put_row id i s [] = refl
bucket_of-put_row id i s ((j, b) ∷ buckets) = elim (Bool-cases (j == i)) [
  | inl e ↦ ground (arith, e)
  | inr e ↦ ground (arith, e, bucket_of-put_row id i s buckets)
]

open_is_apart :
    (s : Status)
    → is_open_change s ≡ true
    → (same_status s Status.migrated ≡ false) × (same_status s Status.not_scanned ≡ false)
unfolding is_open_change any
open_is_apart s h = ground arith

migrated_is_apart :
    (s : Status) → same_status s Status.migrated ≡ true → same_status s Status.not_scanned ≡ false
migrated_is_apart s h = ground arith

-- One row more.
count_row-CountsAs :
    (id : ℕ) (row : CoverageState) (b : Bucket)
    → CountsAs id (row ∷ []) b (if row.repository_id == id then count_row row.status b else b)
unfolding CountsAs count_row count_if
count_row-CountsAs id row b =
    let k = open_is_apart row.status in let m = migrated_is_apart row.status in ground (arith, k, m)

-- The loop over the rows counts them.
count_rows-CountsAs :
    (id : ℕ) (rows : List CoverageState) (buckets : List (ℕ × Bucket))
    → CountsAs id rows (bucket_of id buckets) (bucket_of id (count_rows rows buckets))
unfolding CountsAs count_rows count_if
count_rows-CountsAs id [] buckets = (omega arith, omega arith, omega arith, omega arith)
count_rows-CountsAs id (row ∷ rows) buckets =
    let one : CountsAs id (row ∷ []) (bucket_of id buckets)
        (bucket_of id (put_row row.repository_id row.status buckets)) =
      rw (bucket_of-put_row id row.repository_id row.status buckets)
        (count_row-CountsAs id row (bucket_of id buckets)) in
    let rest = count_rows-CountsAs id rows (put_row row.repository_id row.status buckets) in
    (
      omega (arith, one.0, rest.0),
      omega (arith, one.1, rest.1),
      omega (arith, one.2, rest.2),
      omega (arith, one.3, rest.3),
    )

-- The home page shows, for each repository, as many open changes, migrations and entries not scanned as its
-- rows on the board have such a status; entries for which it has no row are counted as not scanned too.
-- The entries for which it has one are counted by its rows, also where those entries are deleted.
pub home_item_counts :
    (db : Database) (total_entries : ℕ) (repo : Repository)
    → let item = home_item db total_entries (count_rows db.coverage []) repo in
      (item.open_changes ≡ count_if (row_of repo.id is_open_change) db.coverage)
      × (item.migrated ≡ count_if (row_of repo.id (λ s. same_status s Status.migrated)) db.coverage)
      × (item.not_scanned
          ≡ count_if (row_of repo.id (λ s. same_status s Status.not_scanned)) db.coverage
            + (total_entries - count_if (row_of repo.id (λ s. true)) db.coverage))
unfolding home_item CountsAs bucket_of
home_item_counts db total_entries repo =
    let c = count_rows-CountsAs repo.id db.coverage [] in
    (omega (arith, c.0), omega (arith, c.1), omega (arith, c.2, c.3))
