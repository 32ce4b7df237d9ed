-- ===== src/Sound/Scan.antt =====
-- Running a scan job keeps the board sound, whatever the network phase does.
use patchline.Prelude.{ℕ, zero, suc, Option, none, some, Text}
use patchline.Models.{Purpose, ScanJob, Repository, ChangelogEntry, DerivedPattern, Status}
use patchline.Tx.Respects.{Respects}
use patchline.Env.{Env}
use patchline.Coverage.Sound.{KeepsSound, sound_rules}
use patchline.Sound.Services.{service_rules}
use patchline.Sound.Queue.{reenqueue_rate_limited-IsSound}
use patchline.Scanning.Start.{
  Context, Start, stop, go, fail_job, refuse, start_with_pattern, start_with, start_job, start,
}
use patchline.Scanning.Finish.{
  ScanResult, finish, move_board, notify_regression, notify_complete, or_attribute_error,
  require_job, store_and_tell, store_result, fail_coverage, notify_engine_failure, count_failure,
  fail_found, fail_scan, fail_engine,
}
use patchline.Scanning.Execute.{
  Network, scanned, rate_limit_error, engine_error, github_error, other_error, settle_job,
  run_start, execute_scan_job,
}

fail_job-IsSound : (now i : ℕ) (m : Text) → Respects KeepsSound (fail_job now i m)
unfolding fail_job
fail_job-IsSound now i m = search sound_rules

refuse-IsSound : (now i : ℕ) (m : Text) → Respects KeepsSound (refuse now i m)
unfolding refuse
refuse-IsSound now i m = search (sound_rules, fail_job-IsSound)

start_with_pattern-IsSound :
    (now : ℕ) (job : ScanJob) (repo : Repository) (entry : ChangelogEntry)
    (p : Option DerivedPattern)
    → Respects KeepsSound (start_with_pattern now job repo entry p)
unfolding start_with_pattern
start_with_pattern-IsSound now job repo entry none = search (sound_rules, refuse-IsSound)
start_with_pattern-IsSound now job repo entry (some p) = search sound_rules

start_with-IsSound :
    (now : ℕ) (job : ScanJob) (repo : Option Repository) (entry : Option ChangelogEntry)
    → Respects KeepsSound (start_with now job repo entry)
unfolding start_with
start_with-IsSound now job (some repo) (some entry) =
    search (sound_rules, refuse-IsSound, start_with_pattern-IsSound)
start_with-IsSound now job (some repo) none = search (sound_rules, refuse-IsSound)
start_with-IsSound now job none entry = search (sound_rules, refuse-IsSound)

start_job-IsSound : (now : ℕ) (o : Option ScanJob) → Respects KeepsSound (start_job now o)
unfolding start_job
start_job-IsSound now none = search sound_rules
start_job-IsSound now (some job) = search (sound_rules, start_with-IsSound)

pub start-IsSound : (now i : ℕ) → Respects KeepsSound (start now i)
unfolding start
start-IsSound now i = search (sound_rules, start_job-IsSound)

move_board-IsSound :
    (now : ℕ) (c : Context) (n : ℕ) (o : Option Status) → Respects KeepsSound (move_board now c n o)
unfolding move_board
move_board-IsSound now c n none = search sound_rules
move_board-IsSound now c n (some to) = search sound_rules

notify_regression-IsSound :
    (env : Env) (c : Context) (p : Purpose) (n : ℕ)
    → Respects KeepsSound (notify_regression env c p n)
unfolding notify_regression
notify_regression-IsSound env c Purpose.rescan (suc n) = search service_rules
notify_regression-IsSound env c Purpose.rescan zero = search service_rules
notify_regression-IsSound env c _ n = search service_rules

notify_complete-IsSound :
    (env : Env) (c : Context) (n : ℕ) → Respects KeepsSound (notify_complete env c n)
unfolding notify_complete
notify_complete-IsSound env c n = search service_rules

or_attribute_error-IsSound :
    {A : Type 0} (o : Option A) → Respects KeepsSound (or_attribute_error o)
unfolding or_attribute_error
or_attribute_error-IsSound none = search sound_rules
or_attribute_error-IsSound (some a) = search sound_rules

require_job-IsSound : (i : ℕ) → Respects KeepsSound (require_job i)
unfolding require_job
require_job-IsSound i = search (sound_rules, or_attribute_error-IsSound)

store_and_tell-IsSound :
    (env : Env) (c : Context) (r : ScanResult) → Respects KeepsSound (store_and_tell env c r)
unfolding store_and_tell store_result
store_and_tell-IsSound env c r =
    search (service_rules, move_board-IsSound, notify_regression-IsSound, notify_complete-IsSound)
      depth 12

pub finish-IsSound :
    (env : Env) (c : Context) (r : ScanResult) → Respects KeepsSound (finish env c r)
unfolding finish
finish-IsSound env c r = search (sound_rules, require_job-IsSound, store_and_tell-IsSound)

fail_coverage-IsSound : (now : ℕ) (job : ScanJob) → Respects KeepsSound (fail_coverage now job)
unfolding fail_coverage
fail_coverage-IsSound now job = search sound_rules

pub notify_engine_failure-IsSound :
    (env : Env) (entry : ℕ) (repo : Text)
    → Respects KeepsSound (notify_engine_failure env entry repo)
unfolding notify_engine_failure
notify_engine_failure-IsSound env entry repo = search service_rules depth 8

fail_found-IsSound :
    (env : Env) (c : Context) (m : Text) (o : Option ScanJob)
    → Respects KeepsSound (fail_found env c m o)
unfolding fail_found
fail_found-IsSound env c m none = search sound_rules
fail_found-IsSound env c m (some job) =
    search (sound_rules, fail_job-IsSound, fail_coverage-IsSound)

count_failure-IsSound :
    (env : Env) (c : Context) (o : Option ScanJob) → Respects KeepsSound (count_failure env c o)
unfolding count_failure
count_failure-IsSound env c none = search sound_rules
count_failure-IsSound env c (some job) = search (sound_rules, notify_engine_failure-IsSound)

fail_scan-IsSound : (env : Env) (c : Context) (m : Text) → Respects KeepsSound (fail_scan env c m)
unfolding fail_scan
fail_scan-IsSound env c m = search (sound_rules, fail_found-IsSound)

fail_engine-IsSound :
    (env : Env) (c : Context) (m : Text) → Respects KeepsSound (fail_engine env c m)
unfolding fail_engine
fail_engine-IsSound env c m =
    search (sound_rules, fail_found-IsSound, count_failure-IsSound) depth 7

settle_job-IsSound :
    (env : Env) (c : Context) (n : Network) → Respects KeepsSound (settle_job env c n)
unfolding settle_job
settle_job-IsSound env c (scanned r) = search (service_rules, finish-IsSound) depth 7
settle_job-IsSound env c (rate_limit_error r) =
    search (service_rules, reenqueue_rate_limited-IsSound)
settle_job-IsSound env c (engine_error m) = search (service_rules, fail_engine-IsSound) depth 7
settle_job-IsSound env c (github_error m) = search (service_rules, fail_scan-IsSound)
settle_job-IsSound env c (other_error m) = search (service_rules, fail_scan-IsSound)

run_start-IsSound :
    (env : Env) (network : Context → Network) (s : Start)
    → Respects KeepsSound (run_start env network s)
unfolding run_start
run_start-IsSound env network (stop outcome) = search sound_rules
run_start-IsSound env network (go c) = settle_job-IsSound env c (network c)

-- Running a scan job from start to end, whatever the network answers and also where a transaction
-- raises, keeps the coverage board sound.
pub execute_scan_job-IsSound :
    (env : Env) (network : Context → Network) (job_id : ℕ)
    → Respects KeepsSound (execute_scan_job env network job_id)
unfolding execute_scan_job
execute_scan_job-IsSound env network job_id = search (sound_rules, start-IsSound, run_start-IsSound)
