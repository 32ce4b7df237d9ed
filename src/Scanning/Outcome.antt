-- ===== src/Scanning/Outcome.antt =====
-- What the end of a scan job does to the board, and when it is refused.
use patchline.Prelude.{
  ℕ, zero, suc, ◌≡◌, refl, sym, Bool, ◌≢◌, true, false, ◌&&◌, Option, none, some, List, [], ◌∷◌,
  Text, ◌==◌, length, arith, Bool-cases, inl, inr, if◌then◌else◌,
}
use patchline.Models.{
  Database, Status, scanning, no_hits, Purpose, ScanJob, Notification, EventType,
  regression_detected, job_table,
}
use patchline.Query.{get}
use patchline.Tx.{Tx, is_ok, pure, ◌>>=◌, ◌>>◌, session_scope}
use patchline.Env.{Env}
use patchline.ConfigStore.{
  get_config_value, set_config_value, stored_instance_id, instance_id_from, instance_id,
  record_engine_success,
}
use patchline.Notifications.{
  Notice, record_notification, flush_rows, flush_pending, pending_rows, record_outcome,
  notifications_enabled, build_payload, payload_for,
}
use patchline.Coverage.{can_transition}
use patchline.Coverage.Board.{status_of}
use patchline.Coverage.Effect.{
  permits, after, Moves, IsQuiet, IsQuiet-bind, IsQuiet-lift, Moves-after, Moves-before, Moves-none,
  Moves-session_scope, Moves-apply_transition, session_scope_move, refused-bind, quiet_rules,
}
use patchline.Scanning.Start.{Context, Outcome, done}
use patchline.Scanning.Execute.{scanned, settle_job}
use patchline.Scanning.Finish.{
  OccurrenceData, ScanResult, store_result, finished_status, finished_transition, move_board,
  notify_regression, notify_complete, or_attribute_error, require_job, store_and_tell, finish,
}

set_config_value-IsQuiet : (k v : Text) → IsQuiet (set_config_value k v)
unfolding set_config_value
set_config_value-IsQuiet k v = search quiet_rules

stored_instance_id-IsQuiet : (env : Env) (o : Option Text) → IsQuiet (stored_instance_id env o)
unfolding stored_instance_id
stored_instance_id-IsQuiet env (some (c ∷ s)) = search quiet_rules
stored_instance_id-IsQuiet env (some []) = search (quiet_rules, set_config_value-IsQuiet)
stored_instance_id-IsQuiet env none = search (quiet_rules, set_config_value-IsQuiet)

instance_id_from-IsQuiet : (env : Env) (o : Option Text) → IsQuiet (instance_id_from env o)
unfolding instance_id_from get_config_value
instance_id_from-IsQuiet env (some value) = search quiet_rules
instance_id_from-IsQuiet env none = search (quiet_rules, stored_instance_id-IsQuiet)

pub instance_id-IsQuiet : (env : Env) → IsQuiet (instance_id env)
unfolding instance_id
instance_id-IsQuiet env = instance_id_from-IsQuiet env _

pub record_engine_success-IsQuiet : IsQuiet record_engine_success
unfolding record_engine_success
record_engine_success-IsQuiet = set_config_value-IsQuiet _ _

build_payload_ok :
    (env : Env) (delivery instance : Text) (n : Notice) (e : EventType)
    → (e ≡ regression_detected → n.regression_type ≢ none)
    → is_ok (payload_for e env delivery instance n) ≡ true
unfolding payload_for
build_payload_ok env delivery instance n regression_detected h = ground (arith, h refl)
build_payload_ok env delivery instance n _ h = refl

pub record_notification-IsQuiet :
    (env : Env) (instance : Text) (n : Notice)
    → (n.event_type ≡ regression_detected → n.regression_type ≢ none)
    → IsQuiet (record_notification env instance n)
unfolding record_notification build_payload
record_notification-IsQuiet env instance n h = IsQuiet-bind _ _ (search quiet_rules) λ i.
    IsQuiet-bind _ _ (IsQuiet-lift _ (build_payload_ok env (env.uuid i) instance n n.event_type h))
      λ payload. search quiet_rules

notify_regression-IsQuiet :
    (env : Env) (c : Context) (p : Purpose) (n : ℕ) → IsQuiet (notify_regression env c p n)
unfolding notify_regression
notify_regression-IsQuiet env c Purpose.rescan (suc n) =
    IsQuiet-bind _ _ (instance_id-IsQuiet env) λ i.
      IsQuiet-bind _ _ (record_notification-IsQuiet env i _ (λ e f. cc)) (λ x. search quiet_rules)
notify_regression-IsQuiet env c Purpose.rescan zero = search quiet_rules
notify_regression-IsQuiet env c _ n = search quiet_rules

notify_complete-IsQuiet : (env : Env) (c : Context) (n : ℕ) → IsQuiet (notify_complete env c n)
unfolding notify_complete
notify_complete-IsQuiet env c n =
    IsQuiet-bind _ _ (instance_id-IsQuiet env) λ i.
      IsQuiet-bind _ _ (record_notification-IsQuiet env i _ (λ e. cc)) (λ x. search quiet_rules)

move_board-Moves :
    (now : ℕ) (c : Context) (n : ℕ) (to : Option Status)
    → Moves (move_board now c n to) c.entry_id c.repo_id to
unfolding move_board finished_transition
move_board-Moves now c n none = Moves-none _ _ _ (search quiet_rules)
move_board-Moves now c n (some to) =
    Moves-before _ _ _ _ _ (Moves-apply_transition now (finished_transition now c n to))
      (λ x. search quiet_rules)

store_and_tell-Moves :
    (env : Env) (c : Context) (r : ScanResult)
    → Moves
        (store_and_tell env c r)
        c.entry_id
        c.repo_id
        (finished_status c.purpose (length r.occurrences))
unfolding store_and_tell store_result
store_and_tell-Moves env c r = Moves-after _ _ _ _ _ record_engine_success-IsQuiet λ _.
    Moves-after _ _ _ _ _ (search quiet_rules) λ _.
      Moves-before _ _ _ _ _ (move_board-Moves env.now c _ _) λ _.
        IsQuiet-bind _ _ (notify_regression-IsQuiet env c _ _)
          (λ _. notify_complete-IsQuiet env c _)

flush_rows-coverage :
    (env : Env) (rows : List Notification) (n : ℕ) (db : Database)
    → (flush_rows env rows n db).1.coverage ≡ db.coverage
unfolding flush_rows record_outcome
flush_rows-coverage env [] n db = refl
flush_rows-coverage env (x ∷ rows) n db = flush_rows-coverage env rows _ _

pub flush_pending-IsQuiet : (env : Env) → IsQuiet (flush_pending env)
unfolding flush_pending
flush_pending-IsQuiet env = record {
  answer = λ db. ground arith;
  board = λ db e r. elim (Bool-cases (notifications_enabled env)) [
    | inl k ↦ rw (k, flush_rows-coverage env (pending_rows db) 0 db)
    | inr k ↦ rw k
  ];
}

-- The end of a job whose scan succeeded, where its row is still there.
abbrev after_scan : Env → Context → ScanResult → Tx Outcome
after_scan env c r = do session_scope (store_and_tell env c r); flush_pending env; pure done

settle_job-scanned :
    (env : Env) (c : Context) (r : ScanResult) (db : Database) {job : ScanJob}
    → get c.job_id db.jobs ≡ some job
    → settle_job env c (scanned r) db ≡ after_scan env c r db
unfolding settle_job finish require_job or_attribute_error session_scope ◌>>=◌
settle_job-scanned env c r db h = rw h

after_scan-Moves :
    (env : Env) (c : Context) (r : ScanResult)
    → Moves
        (after_scan env c r)
        c.entry_id
        c.repo_id
        (finished_status c.purpose (length r.occurrences))
after_scan-Moves env c r =
    Moves-before _ _ _ _ _ (Moves-session_scope _ _ _ _ (store_and_tell-Moves env c r))
      λ x. IsQuiet-bind _ _ (flush_pending-IsQuiet env) (λ n. search quiet_rules)

refuses_no_hits :
    (s : Status) → s ≢ scanning → s ≢ no_hits → permits s (finished_status Purpose.scan 0) ≡ false
unfolding can_transition finished_status
refuses_no_hits scanning a b = absurd (a refl)
refuses_no_hits no_hits a b = absurd (b refl)
refuses_no_hits _ a b = refl

-- The status that is due to a repository: by what the scan has shown of it, and what it was made for.
abbrev pub due : Bool → Purpose → Option Status
due true Purpose.verification = some Status.migrated
due true Purpose.rescan = none
due true _ = some no_hits
due false Purpose.verification = some Status.migration_incomplete
due false _ = some Status.pattern_detected

abbrev pub is_clean : List OccurrenceData → Bool
is_clean [] = true
is_clean (o ∷ os) = false

finished_status_lem :
    (p : Purpose) (os : List OccurrenceData) → finished_status p (length os) ≡ due (is_clean os) p
unfolding finished_status
finished_status_lem Purpose.verification [] = refl
finished_status_lem Purpose.rescan [] = refl
finished_status_lem _ [] = refl
finished_status_lem Purpose.verification (o ∷ os) = refl
finished_status_lem Purpose.rescan (o ∷ os) = refl
finished_status_lem _ (o ∷ os) = refl

module _ (env : Env) (c : Context) (r : ScanResult) (db : Database) {job : ScanJob}
    (found : get c.job_id db.jobs ≡ some job) where
  abbrev asked : Option Status
  asked = finished_status c.purpose (length r.occurrences)

  -- A scan that succeeded ends well exactly if the board may go on to the status that is due: without
  -- occurrences `migrated` for a verification, none for a periodic rescan and else `no_hits`; with
  -- occurrences `migration_incomplete` for a verification and else `pattern_detected`. Then the pair of the
  -- job has that status, or the one that it had where none is due, and no other pair moved.
  pub scanned_board :
      (is_ok (settle_job env c (scanned r) db).0
        ≡ permits
            (status_of db.coverage c.entry_id c.repo_id)
            (due (is_clean r.occurrences) c.purpose))
      × ((e q : ℕ)
          → status_of (settle_job env c (scanned r) db).1.coverage e q ≡ (
              if permits
                (status_of db.coverage c.entry_id c.repo_id)
                (due (is_clean r.occurrences) c.purpose)
              then after
                  (due (is_clean r.occurrences) c.purpose)
                  (status_of db.coverage e q)
                  (c.entry_id == e && c.repo_id == q)
              else status_of db.coverage e q))
  scanned_board =
      let m = after_scan-Moves env c r in
      rw (settle_job-scanned env c r db found)
        (rw (sym (finished_status_lem c.purpose r.occurrences)) (m.answer db, m.board db))

  -- If the board may not, nothing at all is written: the results are lost and the job is still running.
  pub scanned_refused :
      permits (status_of db.coverage c.entry_id c.repo_id) asked ≡ false
      → (is_ok (settle_job env c (scanned r) db).0 ≡ false)
        × ((settle_job env c (scanned r) db).1 ≡ db)
  scanned_refused denied = rw (settle_job-scanned env c r db found) (
      refused-bind _ _ db
        (session_scope_move _ c.entry_id c.repo_id asked db (store_and_tell-Moves env c r) denied))

  -- A scan without occurrences is refused in every status but `scanning` and `no_hits`. So are the
  -- periodic rescan of a migrated repository, the retried job of a failed scan, and the second branch of a
  -- repository whose first branch has the pattern, since all of these have the purpose `scan`.
  pub clean_scan_refused :
      c.purpose ≡ Purpose.scan
      → r.occurrences ≡ []
      → status_of db.coverage c.entry_id c.repo_id ≢ scanning
      → status_of db.coverage c.entry_id c.repo_id ≢ no_hits
      → (is_ok (settle_job env c (scanned r) db).0 ≡ false)
        × ((settle_job env c (scanned r) db).1 ≡ db)
  clean_scan_refused p o s n = scanned_refused (rw (p, o) (refuses_no_hits _ s n))
