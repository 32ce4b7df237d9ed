-- ===== src/System/Invariant.antt =====
-- The invariant of the coverage board, for the program as a whole.
use patchline.Prelude.{count_if, arith}
use patchline.Models.{Database, empty}
use patchline.Tx.Respects.{Respects-session_scope}
use patchline.Coverage.Sound.{IsSound, KeepsSound-IsHistory}
use patchline.Sound.Queue.{requeue_stale_jobs-IsSound}
use patchline.Sound.Worker.{worker_pass-IsSound, rescan_round-IsSound}
use patchline.Sound.Login.{
  session_middleware-IsSound, demo_entry-IsSound, login-IsSound, login_start-IsSound,
  github_callback-IsSound, logout-IsSound,
}
use patchline.Sound.Actions.{
  entry_create-IsSound, scan_trigger-IsSound, rescan_repo-IsSound, flag_occurrence-IsSound,
  generate-IsSound, mark_migrated-IsSound, configure_branches-IsSound, recheck-IsSound,
  sync-IsSound, retry_job-IsSound, github_webhook-IsSound,
}
use patchline.Sound.Dispatches.{approve_and_dispatch-IsSound}
use patchline.System.{
  Step, Reach, visit, enter_demo, show_login, start_login, call_back, leave, receive, create,
  trigger, rescan, flag, ask_remediation, approve, mark, configure, check_again, synchronize, retry,
  start_worker, pass, schedule, here, next,
}

Step-IsSound : {a b : Database} → Step a b → IsSound a → IsSound b
Step-IsSound {a} (visit env path cookie) h = (session_middleware-IsSound env path cookie).at a h
Step-IsSound {a} (enter_demo hmac env draws gs) h = (demo_entry-IsSound hmac env draws gs).at a h
Step-IsSound {a} (show_login hmac env draws gs to) h = (login-IsSound hmac env draws gs to).at a h
Step-IsSound {a} (start_login hmac env draws gs to cookie) h =
    (login_start-IsSound hmac env draws gs to cookie).at a h
Step-IsSound {a} (call_back hmac env draws cookie state to error user) h =
    (github_callback-IsSound hmac env draws cookie state to error user).at a h
Step-IsSound {a} (leave env cookie) h = (logout-IsSound env cookie).at a h
Step-IsSound {a} (receive hmac env read_event headers body) h =
    (github_webhook-IsSound hmac env read_event headers body).at a h
Step-IsSound {a} (create env request) h = (entry_create-IsSound env request).at a h
Step-IsSound {a} (trigger env request id) h = (scan_trigger-IsSound env request id).at a h
Step-IsSound {a} (rescan env request id rid) h = (rescan_repo-IsSound env request id rid).at a h
Step-IsSound {a} (flag env request oid) h = (flag_occurrence-IsSound env request oid).at a h
Step-IsSound {a} (ask_remediation request id rid) h = (generate-IsSound request id rid).at a h
Step-IsSound {a} (approve gh tools env request id rid w) h =
    approve_and_dispatch-IsSound gh tools env request id rid a w h
Step-IsSound {a} (mark env request id rid) h = (mark_migrated-IsSound env request id rid).at a h
Step-IsSound {a} (configure exists request rid) h =
    (configure_branches-IsSound exists request rid).at a h
Step-IsSound {a} (check_again request gs) h = (recheck-IsSound request gs).at a h
Step-IsSound {a} (synchronize env request answers) h = (sync-IsSound env request answers).at a h
Step-IsSound {a} (retry request id) h = (retry_job-IsSound request id).at a h
Step-IsSound {a} (start_worker env) h =
    (Respects-session_scope KeepsSound-IsHistory _ (requeue_stale_jobs-IsSound _ env.now)).at a h
Step-IsSound {a} (pass env out) h = (worker_pass-IsSound env out).at a h
Step-IsSound {a} (schedule env) h = (rescan_round-IsSound env).at a h

reached-IsSound : {start db : Database} → IsSound start → Reach start db → IsSound db
reached-IsSound h here = h
reached-IsSound h (next r s) = Step-IsSound s (reached-IsSound h r)

empty-IsSound : IsSound empty
unfolding count_if
empty-IsSound = record {
  unique = λ e r. omega arith;
  audited = record { tracked = tt; keys = λ i. omega arith; known = tt };
}

-- Whatever the web application and the worker do, in any order, with any requests, clocks and answers from
-- outside, and also where calls raise: starting from the empty database, each pair of an entry and a
-- repository has at most one row on the coverage board, and the audit log accounts for every status.
pub Reach-IsSound : (db : Database) → Reach empty db → IsSound db
Reach-IsSound db r = reached-IsSound empty-IsSound r
