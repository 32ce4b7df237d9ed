-- ===== src/Scanning/Execute.antt =====
-- execute_scan_job of src/patchline/core/scanning.py, from the claimed job to its outcome. The network
-- phase, between the transactions, is a parameter: what the try block returns or raises. The code's
-- archives are deleted when it is left, and its engine latency is recorded elsewhere: neither is here.
use patchline.Prelude.{ℕ, Text, text, ◌++◌, Option}
use patchline.Models.{job_table}
use patchline.Tx.{Tx, pure, session_scope, ◌>>=◌, ◌>>◌}
use patchline.Env.{Env}
use patchline.Notifications.{flush_pending}
use patchline.Jobs.Queue.{reenqueue_rate_limited}
use patchline.Scanning.Start.{Outcome, failed, queued, done, Context, Start, stop, go, start}
use patchline.Scanning.Finish.{ScanResult, finish, fail_scan, fail_engine}

-- How the network phase ends: with a result, or with one of the exceptions that are told apart.
pub data Network : Type 0 where
  scanned : ScanResult → Network
  rate_limit_error : Option ℕ → Network
  engine_error : Text → Network
  -- GitHubError or ScanFailure
  github_error : Text → Network
  other_error : Text → Network

unfoldable pub settle_job : Env → Context → Network → Tx Outcome
settle_job env c (scanned result) = do
  session_scope (finish env c result)
  flush_pending env
  pure done
settle_job env c (rate_limit_error retry_after) = do
  session_scope (reenqueue_rate_limited env.now c.job_id retry_after)
  pure queued
settle_job env c (engine_error message) = do
  session_scope (fail_engine env c message)
  flush_pending env
  pure failed
settle_job env c (github_error message) = do session_scope (fail_scan env c message); pure failed
settle_job env c (other_error message) = do
  session_scope (fail_scan env c (text "unexpected: " ++ message))
  pure failed

unfoldable pub run_start : Env → (Context → Network) → Start → Tx Outcome
unfolding settle_job
run_start env network (stop outcome) = pure outcome
run_start env network (go c) = settle_job env c (network c)

unfoldable pub execute_scan_job : Env → (Context → Network) → ℕ → Tx Outcome
unfolding start run_start
execute_scan_job env network job_id = do
  begun ← session_scope (start env.now job_id)
  run_start env network begun
