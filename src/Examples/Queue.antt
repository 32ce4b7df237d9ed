-- ===== src/Examples/Queue.antt =====
-- The theorems on the queue of jobs at concrete inputs.
use patchline.Models.{pr_open, Repository}
use patchline.Tx.{is_ok, session_scope}
use patchline.Coverage.Board.{status_of}
use patchline.Jobs.Enqueue.{enqueue_scans_for_entry}
use patchline.Jobs.Refusal.{enqueue_scans_refused}
use patchline.Prelude.{
  ◌≢◌, false, find, ◌≡◌, refl, ℕ, ◌≤◌, ◌==◌, ◌&&◌, some, none, text, [], ◌∷◌, find, count_if, arith,
}
use patchline.Models.{ScanJob, job_table, empty, Database, migrated}
use patchline.Query.{modify, get}
use patchline.Tx.{ok}
use patchline.Jobs.Row.{new_job, is_queued}
use patchline.Jobs.Queue.{best, prefer, goes_first, claimed, claim, update_claim, claim_next_job}
use patchline.Jobs.Claim.{claim_once, claim_next_job_lem}
use patchline.Jobs.Enqueue.{rescan_rows}
use patchline.Jobs.Periodic.{Adds, rescan_rows-Adds}
use patchline.Examples.Fixtures.{scanning_row, widgets, rename_entry}

-- The rescan of job 1 is older, the scan of job 2 goes first.
abbrev rescan_job : ScanJob
rescan_job = new_job 1 1 7 (text "main") 0 50

abbrev user_job : ScanJob
user_job = new_job 2 1 7 (text "main") 10 60

abbrev two_jobs : Database
two_jobs = record empty { jobs = rescan_job ∷ user_job ∷ [] }

user_job_first : best 100 two_jobs.jobs ≡ some user_job
unfolding best prefer goes_first
user_job_first = refl

keys_differ : (i : ℕ) → count_if (λ j. j.id == i) two_jobs.jobs ≤ 1
unfolding count_if
keys_differ i = ground arith

claim_next_job_lem_example : claim_next_job 100 two_jobs ≡ (
  ok (some (claimed 100 user_job)),
  record two_jobs {
    jobs = modify (λ j. j.id == 2 && is_queued j.status) (claimed 100) two_jobs.jobs;
  },
)
claim_next_job_lem_example =
    claim_next_job_lem 100 two_jobs {job = user_job} keys_differ user_job_first

won : (claim 100 2 two_jobs.jobs).0 ≡ some (claimed 100 user_job)
unfolding claim update_claim get modify count_if find
won = refl

claim_once_example :
    claim 101 2 (claim 100 2 two_jobs.jobs).1 ≡ (none, (claim 100 2 two_jobs.jobs).1)
claim_once_example = claim_once 100 2 101 two_jobs.jobs {job = claimed 100 user_job} won

rescan_rows-Adds_example : Adds two_jobs.jobs (
    rescan_rows 100
      (rename_entry ∷ [])
      (widgets ∷ [])
      (record scanning_row { status = migrated } ∷ [])
      two_jobs.jobs)
rescan_rows-Adds_example =
    rescan_rows-Adds 100 (rename_entry ∷ []) (widgets ∷ [])
      (record scanning_row { status = migrated } ∷ []) two_jobs.jobs

abbrev gadgets : Repository
gadgets = record widgets { id = 8 }

abbrev open_board : Database
open_board = record empty { coverage = record scanning_row { status = pr_open } ∷ [] }

pair_is_open : status_of open_board.coverage 1 7 ≡ pr_open
unfolding find
pair_is_open = refl

gadgets_differ : gadgets.id ≢ widgets.id
gadgets_differ h = ground (arith, h)

enqueue_scans_refused_example :
    (is_ok
        (session_scope
          (enqueue_scans_for_entry 100 rename_entry (gadgets ∷ widgets ∷ []) 10)
          open_board).0
      ≡ false)
    × ((session_scope
          (enqueue_scans_for_entry 100 rename_entry (gadgets ∷ widgets ∷ []) 10)
          open_board).1
        ≡ open_board)
enqueue_scans_refused_example =
    enqueue_scans_refused 100 rename_entry 10 widgets refl (gadgets ∷ []) [] open_board
      (gadgets_differ, tt) pair_is_open
