-- ===== src/Sound/Worker.antt =====
-- Every pass of the worker keeps the board sound.
use patchline.Prelude.{Option, none, some, List, [], ◌∷◌}
use patchline.Models.{ScanJob}
use patchline.Tx.Respects.{Respects, Respects-bind}
use patchline.Env.{Env}
use patchline.Coverage.Sound.{KeepsSound, KeepsSound-IsHistory, sound_rules}
use patchline.Sound.Queue.{
  claim_next_job-IsSound, requeue_stale_jobs-IsSound, enqueue_periodic_rescans-IsSound,
}
use patchline.Sound.Scan.{execute_scan_job-IsSound}
use patchline.Sound.Entries.{process_pending_derivations-IsSound}
use patchline.Sound.Remediations.{generate_remediation-IsSound}
use patchline.Worker.{
  Outside, run_claimed, process_one_job, process_pending_remediations, pass_steps, worker_pass,
  rescan_round, run_passes, run_worker,
}

run_claimed-IsSound :
    (env : Env) (out : Outside) (job : Option ScanJob)
    → Respects KeepsSound (run_claimed env out job)
unfolding run_claimed
run_claimed-IsSound env out none = search sound_rules
run_claimed-IsSound env out (some job) = search (sound_rules, execute_scan_job-IsSound)

process_one_job-IsSound :
    (env : Env) (out : Outside) → Respects KeepsSound (process_one_job env out)
unfolding process_one_job
process_one_job-IsSound env out = search (sound_rules, claim_next_job-IsSound, run_claimed-IsSound)

process_pending_remediations-IsSound :
    (env : Env) (out : Outside) → Respects KeepsSound (process_pending_remediations env out)
unfolding process_pending_remediations
process_pending_remediations-IsSound env out =
    search (sound_rules, generate_remediation-IsSound) depth 9

pub worker_pass-IsSound : (env : Env) (out : Outside) → Respects KeepsSound (worker_pass env out)
unfolding worker_pass pass_steps
worker_pass-IsSound env out =
    search
      (
        sound_rules, process_pending_derivations-IsSound, process_pending_remediations-IsSound,
        process_one_job-IsSound,
      )
      depth 9

pub rescan_round-IsSound : (env : Env) → Respects KeepsSound (rescan_round env)
unfolding rescan_round
rescan_round-IsSound env = search (sound_rules, enqueue_periodic_rescans-IsSound) depth 9

run_passes-IsSound : (passes : List (Env × Outside)) → Respects KeepsSound (run_passes passes)
unfolding run_passes
run_passes-IsSound [] = search sound_rules
run_passes-IsSound ((env, out) ∷ rest) =
    Respects-bind KeepsSound-IsHistory _ _ (worker_pass-IsSound env out)
      (λ done. run_passes-IsSound rest)

pub run_worker-IsSound :
    (env : Env) (passes : List (Env × Outside)) → Respects KeepsSound (run_worker env passes)
unfolding run_worker
run_worker-IsSound env passes = search (sound_rules, requeue_stale_jobs-IsSound, run_passes-IsSound)
