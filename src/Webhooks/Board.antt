-- ===== src/Webhooks/Board.antt =====
-- What a pull_request webhook does to the coverage board.
use patchline.Prelude.{
  ℕ, ◌≡◌, Bool, true, false, ◌==◌, ◌&&◌, Option, none, some, ◌∷◌, Text, same, find, if◌then◌else◌,
}
use patchline.Models.{
  Database, Status, Repository, PullRequest, ChangelogEntry, ScanJob, repository_table,
}
use patchline.Tx.{is_ok, ◌>>=◌}
use patchline.Env.{Env}
use patchline.Jobs.Enqueue.{enqueue_verification, add_verification}
use patchline.Coverage.Board.{status_of}
use patchline.Coverage.Effect.{
  permits, after, Moves, IsQuiet, IsQuiet-bind, Moves-after, Moves-before, Moves-none,
  Moves-apply_transition, quiet_rules,
}
use patchline.Scanning.Outcome.{instance_id-IsQuiet, record_notification-IsQuiet}
use patchline.Webhooks.Handlers.{
  PullAction, pull_closed, pull_opened, pull_other, PullEvent, latest_pull, set_pull_state,
  verify_merge, pull_merged, pull_rejected, apply_pull_action, apply_pull_row, apply_pull_repo,
  apply_pull_named, apply_pull_request,
}

add_verification-IsQuiet :
    (now : ℕ) (entry : ChangelogEntry) (repo : Repository) (delay : ℕ) (o : Option ScanJob)
    → IsQuiet (add_verification now entry repo delay o)
unfolding add_verification
add_verification-IsQuiet now entry repo delay none = search quiet_rules
add_verification-IsQuiet now entry repo delay (some job) = search quiet_rules

pub enqueue_verification-IsQuiet :
    (now : ℕ) (entry : ChangelogEntry) (repo : Repository) (delay : ℕ)
    → IsQuiet (enqueue_verification now entry repo delay)
unfolding enqueue_verification
enqueue_verification-IsQuiet now entry repo delay = search (quiet_rules, add_verification-IsQuiet)

verify_merge-IsQuiet :
    (now : ℕ) (repo : Repository) (o : Option ChangelogEntry) → IsQuiet (verify_merge now repo o)
unfolding verify_merge
verify_merge-IsQuiet now repo none = search quiet_rules
verify_merge-IsQuiet now repo (some entry) = search (quiet_rules, enqueue_verification-IsQuiet)

pull_merged-IsQuiet :
    (env : Env) (repo : Repository) (row : PullRequest) (name : Text) (n : ℕ)
    → IsQuiet (pull_merged env repo row name n)
unfolding pull_merged set_pull_state
pull_merged-IsQuiet env repo row name n = IsQuiet-bind _ _ (search quiet_rules) λ _.
    IsQuiet-bind _ _ (search quiet_rules) λ entry.
      IsQuiet-bind _ _ (verify_merge-IsQuiet env.now repo entry) λ _.
        IsQuiet-bind _ _ (instance_id-IsQuiet env) λ i.
          IsQuiet-bind _ _ (record_notification-IsQuiet env i _ (λ e. cc)) (λ x. search quiet_rules)

pull_rejected-Moves :
    (env : Env) (repo : Repository) (row : PullRequest) (name : Text) (n : ℕ)
    → Moves (pull_rejected env repo row name n) row.entry_id repo.id (some Status.pr_rejected)
unfolding pull_rejected set_pull_state
pull_rejected-Moves env repo row name n = Moves-after _ _ _ _ _ (search quiet_rules) λ _.
    Moves-before _ _ _ _ _ (Moves-apply_transition env.now _) λ _.
      IsQuiet-bind _ _ (instance_id-IsQuiet env) λ i.
        IsQuiet-bind _ _ (record_notification-IsQuiet env i _ (λ e. cc)) (λ x. search quiet_rules)

-- Only a pull request that was closed and not merged asks the board for something.
abbrev pub rejection : PullAction → Bool → Option Status
rejection pull_closed false = some Status.pr_rejected
rejection _ _ = none

apply_pull_action-Moves :
    (env : Env) (a : PullAction) (b : Bool) (repo : Repository) (name : Text) (n : ℕ)
    (row : PullRequest)
    → Moves (apply_pull_action env a b repo name n row) row.entry_id repo.id (rejection a b)
unfolding apply_pull_action set_pull_state
apply_pull_action-Moves env pull_closed true repo name n row =
    Moves-none _ _ _ (pull_merged-IsQuiet env repo row name n)
apply_pull_action-Moves env pull_closed false repo name n row =
    pull_rejected-Moves env repo row name n
apply_pull_action-Moves env pull_opened b repo name n row = Moves-none _ _ _ (search quiet_rules)
apply_pull_action-Moves env pull_other b repo name n row = Moves-none _ _ _ (search quiet_rules)

-- A webhook of a pull request that the program has opened ends well exactly if it needs nothing of the
-- board, or the pull request was closed without a merge and its pair may go on to `pr_rejected`. Then that
-- pair has this status in the second case, and no other pair moved.
pub apply_pull_request_board :
    (env : Env) (action : PullAction) (is_merged : Bool) (c : ℕ) (name : Text) (number : ℕ)
    (db : Database) (repo : Repository) (row : PullRequest)
    → find (λ r. same r.full_name (c ∷ name)) db.repositories ≡ some repo
    → latest_pull repo.id number db.pull_requests ≡ some row
    → let event : PullEvent = record {
      action = action;
      repo_full = some (c ∷ name);
      number = some number;
      is_merged = is_merged;
    } in
      let (answer, told) = apply_pull_request env event db in
      let may = permits (status_of db.coverage row.entry_id repo.id) (rejection action is_merged) in
      (is_ok answer ≡ may)
      × ((e r : ℕ)
          → status_of told.coverage e r ≡ (
              if may
              then after
                  (rejection action is_merged)
                  (status_of db.coverage e r)
                  (row.entry_id == e && repo.id == r)
              else status_of db.coverage e r))
unfolding apply_pull_request apply_pull_named apply_pull_repo apply_pull_row ◌>>=◌
apply_pull_request_board env action is_merged c name number db repo row found pull =
    let m = apply_pull_action-Moves env action is_merged repo (c ∷ name) number row in
    rw found (rw pull (m.answer db, m.board db))
