-- ===== src/Worker.antt =====
-- One pass of the worker of src/patchline/worker.py. Threads, the heartbeat file and the waiting between
-- the passes are not here: a run of the worker is a list of passes.
pub mod Starved
use patchline.Prelude.{
  ℕ, zero, suc, Bool, true, false, ◌&&◌, ◌||◌, Option, none, some, List, [], ◌∷◌, length, take,
  filter, map, ltb,
}
use patchline.Models.{Database, Remediation, RemediationStatus, ScanJob, Repository, ChangelogEntry}
use patchline.Tx.{Tx, Error, pure, gets, session_scope, catch, for_each, ◌>>=◌, ◌>>◌}
use patchline.Env.{Env}
use patchline.Jobs.Queue.{claim_next_job, requeue_stale_jobs, stale_claim_minutes}
use patchline.Jobs.Enqueue.{enqueue_periodic_rescans}
use patchline.Scanning.Start.{Context}
use patchline.Scanning.Execute.{Network, execute_scan_job}
use patchline.Derivation.{Derivation, Derived, process_pending_derivations}
use patchline.Remediation.Generate.{Packages, Generation, Attempt, generate_remediation}

-- What the engine and GitHub answer in one pass.
pub record Outside : Type 0 where
  pub packages : Packages
  pub derive : Derivation → Derived
  pub generate : Generation → Attempt
  pub scan : Context → Network

unfoldable pub run_claimed : Env → Outside → Option ScanJob → Tx Bool
unfolding execute_scan_job
run_claimed env out none = pure false
run_claimed env out (some job) = do execute_scan_job env out.scan job.id; pure true

unfoldable pub process_one_job : Env → Outside → Tx Bool
unfolding claim_next_job run_claimed
process_one_job env out = do job ← session_scope (claim_next_job env.now); run_claimed env out job

abbrev pub is_generating : Remediation → Bool
is_generating rem =
    elim rem.status [ RemediationStatus.generating ↦ true | _ ↦ false ]
    && (elim rem.deleted_at [ none ↦ true | some t ↦ false ])

-- The five rows with the lowest keys: rows are kept in the order of their keys.
unfoldable pub pending_remediations : Database → List ℕ
unfolding filter
pending_remediations db = map (λ r. r.id) (take 5 (filter is_generating db.remediations))

unfoldable pub process_pending_remediations : Env → Outside → Tx ℕ
unfolding pending_remediations generate_remediation
process_pending_remediations env out = do
  ids ← gets pending_remediations
  for_each ids (λ id. do generate_remediation env out.packages out.generate id; pure tt)
  pure (length ids)

-- The body of the loop's try block.
unfoldable pub pass_steps : Env → Outside → Tx Bool
unfolding process_pending_derivations process_pending_remediations process_one_job
pass_steps env out = do
  derived ← process_pending_derivations out.derive 10
  generated ← process_pending_remediations env out
  scanned ← process_one_job env out
  pure (ltb 0 derived || ltb 0 generated || scanned)

-- An exception is logged, and the pass is over. Whether work was done only decides on a wait.
unfoldable pub worker_pass : Env → Outside → Tx (Unit {0})
unfolding pass_steps
worker_pass env out = catch (pass_steps env out >> pure tt) (λ e. pure tt)

abbrev is_kept_entry : ChangelogEntry → Bool
is_kept_entry entry = elim entry.deleted_at [ none ↦ true | some t ↦ false ]

abbrev is_kept_repository : Repository → Bool
is_kept_repository repo = elim repo.deleted_at [ none ↦ true | some t ↦ false ]

-- One round of _rescan_scheduler_loop.
unfoldable pub rescan_round : Env → Tx (Unit {0})
unfolding filter enqueue_periodic_rescans
rescan_round env =
    catch
      (session_scope (do
        entries ← gets (λ db. filter is_kept_entry db.entries)
        repos ← gets (λ db. filter is_kept_repository db.repositories)
        enqueue_periodic_rescans env.now entries repos
        pure tt))
      (λ e. pure tt)

-- The passes of a worker, each with its clock and its answers.
unfoldable pub run_passes : List (Env × Outside) → Tx (Unit {0})
unfolding worker_pass
run_passes [] = pure tt
run_passes ((env, out) ∷ rest) = do worker_pass env out; run_passes rest

-- run_worker: the stale claims are taken back first.
unfoldable pub run_worker : Env → List (Env × Outside) → Tx (Unit {0})
unfolding requeue_stale_jobs run_passes
run_worker env passes = do
  session_scope (requeue_stale_jobs stale_claim_minutes env.now)
  run_passes passes
