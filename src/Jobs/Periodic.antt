-- ===== src/Jobs/Periodic.antt =====
-- What the periodic rescans add to the queue (enqueue_periodic_rescans of jobs.py).
use patchline.Prelude.{
  ℕ, ◌≡◌, refl, Option, none, some, List, [], ◌∷◌, ◌++◌, append-nil, append_assoc, All, sym, ◌∙◌,
  ap, Bool-cases, inl, inr, All-append,
}
use patchline.Models.{ScanJob, scan, queued, Repository, ChangelogEntry, CoverageState}
use patchline.Query.{get}
use patchline.Models.{repository_table, entry_table}
use patchline.Jobs.Row.{priority_rescan}
use patchline.Jobs.Enqueue.{wants_rescan, rescan_row, rescan_rows}

-- A job as the periodic rescan makes it: of the lowest priority, and of the same purpose as a scan that
-- a user asked for, not of the purpose `rescan`.
abbrev pub IsPeriodic : ScanJob → Type 0
IsPeriodic j = (j.purpose ≡ scan) × (j.status ≡ queued) × (j.priority ≡ priority_rescan)

abbrev pub Adds : List ScanJob → List ScanJob → Type 0
Adds old new = (added : List ScanJob) × (new ≡ old ++ added) × All IsPeriodic added

Adds-nil : (jobs : List ScanJob) → Adds jobs jobs
Adds-nil jobs = ([], sym (append-nil jobs), tt)

rescan_row-Adds :
    (now : ℕ) (repo : Option Repository) (entry : Option ChangelogEntry) (row : CoverageState)
    (jobs : List ScanJob)
    → Adds jobs (rescan_row now repo entry row jobs)
unfolding rescan_row
rescan_row-Adds now (some repo) (some entry) row jobs =
    elim (Bool-cases (wants_rescan repo entry jobs row)) [
      | inl e ↦ rw e (_ ∷ [], refl, ((refl, refl, refl), tt))
      | inr e ↦ rw e (Adds-nil jobs)
    ]
rescan_row-Adds now (some repo) none row jobs = Adds-nil jobs
rescan_row-Adds now none entry row jobs = Adds-nil jobs

-- The periodic rescan only adds jobs behind the queue, each one queued, of the lowest priority and of the
-- purpose `scan`.
pub rescan_rows-Adds :
    (now : ℕ) (entries : List ChangelogEntry) (repos : List Repository) (rows : List CoverageState)
    (jobs : List ScanJob)
    → Adds jobs (rescan_rows now entries repos rows jobs)
unfolding rescan_rows
rescan_rows-Adds now entries repos [] jobs = Adds-nil jobs
rescan_rows-Adds now entries repos (row ∷ rows) jobs =
    let first =
      rescan_row-Adds now (get row.repository_id repos) (get row.entry_id entries) row jobs in
    let rest =
      rescan_rows-Adds now entries repos rows
        (rescan_row now (get row.repository_id repos) (get row.entry_id entries) row jobs) in
    (
      first.0 ++ rest.0,
      rest.1 ∙ ap (λ l. l ++ rest.0) first.1 ∙ append_assoc jobs first.0 rest.0,
      All-append IsPeriodic first.0 rest.0 first.2 rest.2,
    )
