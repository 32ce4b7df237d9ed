-- ===== src/Sync/Pulls.antt =====
-- sync_pull_requests of core/pr_sync.py. The answers of GitHub are an argument.
use patchline.Prelude.{
  ℕ, ◌+◌, Bool, true, false, ◌&&◌, not, Option, none, some, List, [], ◌∷◌, ◌++◌, Text, text, show,
  if◌then◌else◌,
}
use patchline.Models.{
  PullRequest, PullRequestState, open_pr, merged, Repository, ChangelogEntry, pr_rejected, JobType,
  pull_request_table, repository_table, entry_table,
}
use patchline.Query.{get}
use patchline.Tx.{Tx, pure, gets, session_scope, ◌>>=◌, ◌>>◌}
use patchline.Coverage.{transition, apply_transition}
use patchline.Jobs.Enqueue.{enqueue_verification}
use patchline.Webhooks.Handlers.{set_pull_state, verification_delay_seconds}

-- The answer for one pull request: its state and whether it has a `merged_at`.
pub data PullAnswer : Type 0 where
  unreachable : PullAnswer
  pull_state : Bool → Bool → PullAnswer

pub record Summary : Type 0 where
  pub checked : ℕ
  pub merged : ℕ
  pub rejected : ℕ
  pub unchanged : ℕ
  pub errors : ℕ

abbrev pub is_open_pull : PullRequestState → Bool
is_open_pull open_pr = true
is_open_pull _ = false

-- One item of the work: the key, the repository's name and the number.
pub record Work : Type 0 where
  pub pr_id : ℕ
  pub repo_full_name : Text
  pub pr_number : ℕ

abbrev work_item : PullRequest → Option Repository → Option ℕ → List Work → List Work
work_item row (some repo) (some number) rest =
    record { pr_id = row.id; repo_full_name = repo.full_name; pr_number = number } ∷ rest
work_item row _ _ rest = rest

unfoldable pub open_work : List Repository → List PullRequest → List Work
open_work repos [] = []
open_work repos (row ∷ rows) =
    let rest = open_work repos rows in
    if is_open_pull row.state
    then work_item row (get row.repository_id repos) row.pr_number rest
    else rest

unfoldable pub verify_if_known : ℕ → Option ChangelogEntry → Option Repository → Tx (Unit {0})
verify_if_known now (some entry) (some repo) = do
  enqueue_verification now entry repo verification_delay_seconds
  pure tt
verify_if_known now _ _ = pure tt

unfoldable pub sync_merged : ℕ → PullRequest → Summary → Tx Summary
unfolding verify_if_known set_pull_state
sync_merged now row s = do
  repo ← gets (λ db. get row.repository_id db.repositories)
  entry ← gets (λ db. get row.entry_id db.entries)
  set_pull_state row.id merged
  verify_if_known now entry repo
  pure (record s { merged = s.merged + 1 })

unfoldable pub sync_rejected : ℕ → Work → PullRequest → Summary → Tx Summary
unfolding set_pull_state text show
sync_rejected now w row s = do
  set_pull_state row.id PullRequestState.rejected
  apply_transition now
      (record (transition row.entry_id row.repository_id pr_rejected JobType.pr_sync) {
        detail = some (text "PR #" ++ show w.pr_number ++ text " closed without merge (sync)");
      })
  pure (record s { rejected = s.rejected + 1 })

-- A row that was closed in the meantime is left alone.
unfoldable pub sync_row : ℕ → Work → Bool → Bool → Summary → Option PullRequest → Tx Summary
unfolding sync_merged sync_rejected
sync_row now w closed has_merged_at s none = pure s
sync_row now w closed has_merged_at s (some row) =
    if not (is_open_pull row.state)
    then pure s
    else if closed && has_merged_at
    then sync_merged now row s
    else if closed
    then sync_rejected now w row s
    else pure (record s { unchanged = s.unchanged + 1 })

unfoldable pub sync_pull : ℕ → Work → Summary → PullAnswer → Tx Summary
unfolding sync_row
sync_pull now w s unreachable = pure (record s { checked = s.checked + 1; errors = s.errors + 1 })
sync_pull now w s (pull_state closed has_merged_at) = session_scope (do
  row ← gets (λ db. get w.pr_id db.pull_requests)
  sync_row now w closed has_merged_at (record s { checked = s.checked + 1 }) row)

unfoldable pub sync_all : ℕ → (Work → PullAnswer) → List Work → Summary → Tx Summary
unfolding sync_pull
sync_all now answers [] s = pure s
sync_all now answers (w ∷ ws) s = do s' ← sync_pull now w s (answers w); sync_all now answers ws s'

abbrev no_summary : Summary
no_summary = record { checked = 0; merged = 0; rejected = 0; unchanged = 0; errors = 0 }

unfoldable pub sync_pull_requests : ℕ → (Work → PullAnswer) → Tx Summary
unfolding open_work sync_all
sync_pull_requests now answers = do
  work ← session_scope (gets (λ db. open_work db.repositories db.pull_requests))
  sync_all now answers work no_summary
