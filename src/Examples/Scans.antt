-- ===== src/Examples/Scans.antt =====
-- The theorems on scan jobs at concrete inputs.
use patchline.Prelude.{◌≡◌, ◌≢◌, refl, ℕ, false, find, ◌==◌, ◌&&◌, some, if◌then◌else◌}
use patchline.Models.{scanning, no_hits, Purpose, job_table}
use patchline.Query.{get}
use patchline.Tx.{is_ok}
use patchline.Coverage.{can_transition}
use patchline.Coverage.Board.{status_of}
use patchline.Coverage.Effect.{permits, after}
use patchline.Scanning.Finish.{finished_status}
use patchline.Scanning.Execute.{scanned, settle_job}
use patchline.Scanning.Outcome.{scanned_board, scanned_refused, clean_scan_refused}
use patchline.Examples.Fixtures.{
  scanning_db, migrated_db, running_job, quiet_env, scan_context, clean_result,
}

scanning_job_found : get 3 scanning_db.jobs ≡ some running_job
unfolding get find
scanning_job_found = refl

migrated_job_found : get 3 migrated_db.jobs ≡ some running_job
unfolding get find
migrated_job_found = refl

scanned_board_example :
    (is_ok (settle_job quiet_env scan_context (scanned clean_result) scanning_db).0
      ≡ permits (status_of scanning_db.coverage 1 7) (some no_hits))
    × ((e q : ℕ)
        → status_of
            (settle_job quiet_env scan_context (scanned clean_result) scanning_db).1.coverage
            e
            q
          ≡ (if permits (status_of scanning_db.coverage 1 7) (some no_hits)
              then after (some no_hits) (status_of scanning_db.coverage e q) (1 == e && 7 == q)
              else status_of scanning_db.coverage e q))
scanned_board_example =
    scanned_board quiet_env scan_context clean_result scanning_db {job = running_job}
      scanning_job_found

migrated_stays :
    permits (status_of migrated_db.coverage 1 7) (finished_status Purpose.scan 0) ≡ false
unfolding find can_transition finished_status
migrated_stays = refl

scanned_refused_example :
    (is_ok (settle_job quiet_env scan_context (scanned clean_result) migrated_db).0 ≡ false)
    × ((settle_job quiet_env scan_context (scanned clean_result) migrated_db).1 ≡ migrated_db)
scanned_refused_example =
    scanned_refused quiet_env scan_context clean_result migrated_db {job = running_job}
      migrated_job_found migrated_stays

not_scanning : status_of migrated_db.coverage 1 7 ≢ scanning
unfolding find
not_scanning h = cc

not_clean : status_of migrated_db.coverage 1 7 ≢ no_hits
unfolding find
not_clean h = cc

clean_scan_refused_example :
    (is_ok (settle_job quiet_env scan_context (scanned clean_result) migrated_db).0 ≡ false)
    × ((settle_job quiet_env scan_context (scanned clean_result) migrated_db).1 ≡ migrated_db)
clean_scan_refused_example =
    clean_scan_refused quiet_env scan_context clean_result migrated_db {job = running_job}
      migrated_job_found refl refl not_scanning not_clean
