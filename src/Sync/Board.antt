-- ===== src/Sync/Board.antt =====
-- What the answer for one pull request does to the coverage board.
use patchline.Prelude.{
  ℕ, ◌+◌, ◌≡◌, Bool, true, false, not, ◌==◌, ◌&&◌, Option, none, some, if◌then◌else◌,
}
use patchline.Models.{
  Database, Status, PullRequest, PullRequestState, open_pr, ChangelogEntry, Repository,
  pull_request_table,
}
use patchline.Query.{get}
use patchline.Tx.{is_ok, pure, session_scope, ◌>>=◌}
use patchline.Coverage.Board.{status_of}
use patchline.Coverage.Effect.{
  permits, after, Moves, IsQuiet, Moves-after, Moves-before, Moves-none, Moves-apply_transition,
  Moves-session_scope, quiet_rules,
}
use patchline.Webhooks.Handlers.{set_pull_state}
use patchline.Webhooks.Board.{enqueue_verification-IsQuiet}
use patchline.Sync.Pulls.{
  Summary, Work, is_open_pull, pull_state, verify_if_known, sync_merged, sync_rejected, sync_row,
  sync_pull,
}

verify_if_known-IsQuiet :
    (now : ℕ) (e : Option ChangelogEntry) (r : Option Repository)
    → IsQuiet (verify_if_known now e r)
unfolding verify_if_known
verify_if_known-IsQuiet now (some entry) (some repo) =
    search (quiet_rules, enqueue_verification-IsQuiet)
verify_if_known-IsQuiet now (some entry) none = search quiet_rules
verify_if_known-IsQuiet now none r = search quiet_rules

sync_merged-IsQuiet : (now : ℕ) (row : PullRequest) (s : Summary) → IsQuiet (sync_merged now row s)
unfolding sync_merged set_pull_state
sync_merged-IsQuiet now row s = search (quiet_rules, verify_if_known-IsQuiet) depth 10

sync_rejected-Moves :
    (now : ℕ) (w : Work) (row : PullRequest) (s : Summary)
    → Moves (sync_rejected now w row s) row.entry_id row.repository_id (some Status.pr_rejected)
unfolding sync_rejected set_pull_state
sync_rejected-Moves now w row s =
    Moves-after _ _ _ _ _ (search quiet_rules)
      λ _. Moves-before _ _ _ _ _ (Moves-apply_transition now _) (λ x. search quiet_rules)

-- Only a pull request that the program takes for open, and that was closed and not merged, asks the board for
-- something.
abbrev pub rejection : PullRequestState → Bool → Bool → Option Status
rejection open_pr true false = some Status.pr_rejected
rejection _ _ _ = none

sync_row-Moves :
    (now : ℕ) (w : Work) (closed has_merged_at : Bool) (s : Summary) (row : PullRequest)
    → Moves
        (sync_row now w closed has_merged_at s (some row))
        row.entry_id
        row.repository_id
        (rejection row.state closed has_merged_at)
unfolding sync_row
sync_row-Moves now w closed has_merged_at s row = go row.state closed has_merged_at
  where
    go :
        (state : PullRequestState) (closed has_merged_at : Bool)
        → Moves
            (if not (is_open_pull state)
              then pure s
              else if closed && has_merged_at
              then sync_merged now row s
              else if closed
              then sync_rejected now w row s
              else pure (record s { unchanged = s.unchanged + 1 }))
            row.entry_id
            row.repository_id
            (rejection state closed has_merged_at)
    go open_pr true true = Moves-none _ _ _ (sync_merged-IsQuiet now row s)
    go open_pr true false = sync_rejected-Moves now w row s
    go open_pr false m = Moves-none _ _ _ (search quiet_rules)
    go _ c m = Moves-none _ _ _ (search quiet_rules)

-- An answer of GitHub for a pull request whose row is there ends well exactly if it needs nothing of the
-- board, or the row is open, the pull request was closed without a merge, and its pair may go on to
-- `pr_rejected`. Then that pair has this status in the second case, and no other pair moved.
pub sync_pull_board :
    (now : ℕ) (w : Work) (s : Summary) (closed has_merged_at : Bool) (db : Database)
    (row : PullRequest)
    → get w.pr_id db.pull_requests ≡ some row
    → let (answer, synced) = sync_pull now w s (pull_state closed has_merged_at) db in
      let may =
        permits
          (status_of db.coverage row.entry_id row.repository_id)
          (rejection row.state closed has_merged_at) in
      (is_ok answer ≡ may)
      × ((e r : ℕ)
          → status_of synced.coverage e r ≡ (
              if may
              then after
                  (rejection row.state closed has_merged_at)
                  (status_of db.coverage e r)
                  (row.entry_id == e && row.repository_id == r)
              else status_of db.coverage e r))
unfolding sync_pull ◌>>=◌ session_scope
sync_pull_board now w s closed has_merged_at db row found =
    let m =
      Moves-session_scope _ _ _ _
        (sync_row-Moves now w closed has_merged_at (record s { checked = s.checked + 1 }) row) in
    rw found (m.answer db, m.board db)
