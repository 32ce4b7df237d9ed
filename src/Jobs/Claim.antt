-- ===== src/Jobs/Claim.antt =====
-- Which job a worker claims, and that a job is claimed once (claim_next_job of jobs.py).
use mathlib.Core.List.{Memᴰ}
use patchline.Query.Members.{count_if_mem, find_mem, modify_mem, count_if_mono}
use patchline.Prelude.{
  ℕ, ◌≡◌, refl, subst, ◌≤◌, Bool, true, false, ◌&&◌, Option, none, some, List, [], ◌∷◌, All,
  count_if, arith, ◌==◌, Bool-cases, inl, inr,
}
use patchline.Models.{ScanJob, Database, job_table}
use patchline.Query.{get, modify, count_if-modify}
use patchline.Tx.{ok, ◌>>=◌}
use patchline.Jobs.Row.{is_queued}
use patchline.Jobs.Queue.{
  is_claimable, goes_first, prefer, best, claimed, update_claim, claim, claim_candidate,
  claim_next_job,
}

-- The claimable jobs that `job` goes in front of.
abbrev pub Leads : ℕ → ScanJob → List ScanJob → Type 0
Leads now job = All (λ k. is_claimable now k ≡ true → goes_first job k ≡ true)

prefer_claimable :
    (now : ℕ) (j : ScanJob) (o : Option ScanJob)
    → is_claimable now j ≡ true
    → ((k : ScanJob) → o ≡ some k → is_claimable now k ≡ true)
    → is_claimable now (prefer j o) ≡ true
unfolding prefer
prefer_claimable now j none c h = c
prefer_claimable now j (some k) c h = elim (Bool-cases (goes_first j k)) [
  | inl e ↦ rw e c
  | inr e ↦ rw e (h k refl)
]

claimable_best :
    (now : ℕ) (jobs : List ScanJob) {job : ScanJob}
    → best now jobs ≡ some job
    → is_claimable now job ≡ true
unfolding best
claimable_best now [] h = ground arith
claimable_best now (j ∷ jobs) {job} h = elim (Bool-cases (is_claimable now j)) [
  | inl c ↦
      let e : prefer j (best now jobs) ≡ job = ground (arith, c, h) in
      subst (λ x. is_claimable now x ≡ true) e
        (prefer_claimable now j (best now jobs) c (λ k p. claimable_best now jobs {job = k} p))
  | inr c ↦ claimable_best now jobs {job = job} (ground (arith, c, h))
]

prefer_mem :
    (j : ScanJob) (o : Option ScanJob) (jobs : List ScanJob)
    → ((k : ScanJob) → o ≡ some k → Memᴰ k jobs)
    → Memᴰ (prefer j o) (j ∷ jobs)
unfolding prefer
prefer_mem j none jobs h = Memᴰ.head refl
prefer_mem j (some k) jobs h = elim (Bool-cases (goes_first j k)) [
  | inl e ↦ rw e (Memᴰ.head refl)
  | inr e ↦ rw e (Memᴰ.tail (h k refl))
]

best_mem :
    (now : ℕ) (jobs : List ScanJob) {job : ScanJob} → best now jobs ≡ some job → Memᴰ job jobs
unfolding best
best_mem now [] h = ground arith
best_mem now (j ∷ jobs) {job} h = elim (Bool-cases (is_claimable now j)) [
  | inl c ↦
      let e : prefer j (best now jobs) ≡ job = ground (arith, c, h) in
      subst (λ x. Memᴰ x (j ∷ jobs)) e
        (prefer_mem j (best now jobs) jobs (λ k p. best_mem now jobs {job = k} p))
  | inr c ↦ Memᴰ.tail (best_mem now jobs {job = job} (ground (arith, c, h)))
]

-- What a selection promises.
abbrev pub IsSelection : ℕ → List ScanJob → Option ScanJob → Type 0
IsSelection now jobs none = All (λ k. is_claimable now k ≡ false) jobs
IsSelection now jobs (some job) = (is_claimable now job ≡ true) × Leads now job jobs

abbrev open_row : ℕ → ScanJob → Bool
open_row i job = job.id == i && is_queued job.status

module _ (now i : ℕ) where
  count_closed :
      (jobs : List ScanJob)
      → count_if (open_row i) jobs ≡ 1
      → count_if (open_row i) (modify (open_row i) (claimed now) jobs) ≡ 0
  unfolding count_if modify
  count_closed [] h = ground arith
  count_closed (j ∷ jobs) h = elim (Bool-cases (open_row i j)) [
    | inl e ↦ rw e (ground (arith, h, e))
    | inr e ↦ rw e (ground (arith, h, e, count_closed jobs))
  ]

  -- Two workers that selected the same job: when the first has claimed it, the second gets nothing and
  -- writes nothing, at any later time.
  pub claim_once :
      (later : ℕ) (jobs : List ScanJob) {job : ScanJob}
      → (claim now i jobs).0 ≡ some job
      → claim later i (claim now i jobs).1 ≡ (none, (claim now i jobs).1)
  unfolding claim update_claim
  claim_once later jobs {job} h = ground (arith, h, count_closed jobs)

-- With distinct keys the selected job is always won: the row is running, claimed now, and every other
-- job is as it was.
pub claim_next_job_lem :
    (now : ℕ) (db : Database) {job : ScanJob}
    → ((i : ℕ) → count_if (λ j. j.id == i) db.jobs ≤ 1)
    → best now db.jobs ≡ some job
    → claim_next_job now db ≡ (
      ok (some (claimed now job)),
      record db { jobs = modify (λ j. j.id == job.id && is_queued j.status) (claimed now) db.jobs },
    )
unfolding claim_next_job claim_candidate claim update_claim get ◌>>=◌
claim_next_job_lem now db {job} keys h =
    let mem = best_mem now db.jobs h in
    let is_open : open_row job.id job ≡ true = ground (arith, claimable_best now db.jobs h) in
    let one : count_if (open_row job.id) db.jobs ≡ 1 = omega (
      arith,
      keys job.id,
      count_if_mem (open_row job.id) mem is_open,
      count_if_mono (open_row job.id) (λ j. j.id == job.id) db.jobs (λ x e. ground (arith, e)),
    ) in
    let found = find_mem (open_row job.id) mem is_open (omega (arith, one)) in
    let won : get job.id (modify (open_row job.id) (claimed now) db.jobs) ≡ some (claimed now job) =
      find_mem (λ j. j.id == job.id) (modify_mem (open_row job.id) (claimed now) db.jobs found)
        (ground arith)
        (rw
          (count_if-modify (open_row job.id) (λ j. j.id == job.id) (claimed now) db.jobs
            (λ x e. refl))
          (keys job.id)) in
    rw (h, one, won)
