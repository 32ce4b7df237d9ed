-- ===== src/Sync/Reconcile.antt =====
-- The poll of the pull requests and the recheck keep the coverage board sound.
use patchline.Prelude.{ℕ, Bool, Option, none, some, List, [], ◌∷◌}
use patchline.Models.{PullRequest, ChangelogEntry, Repository}
use patchline.Tx.Respects.{Respects, Respects-bind}
use patchline.Coverage.Sound.{KeepsSound, KeepsSound-IsHistory, sound_rules}
use patchline.Sound.Queue.{enqueue_verification-IsSound}
use patchline.Webhooks.Sound.{set_pull_state-IsSound, upsert_repository-IsSound}
use patchline.Sync.Pulls.{
  Summary, Work, PullAnswer, unreachable, pull_state, verify_if_known, sync_merged, sync_rejected,
  sync_row, sync_pull, sync_all, sync_pull_requests,
}
use patchline.Sync.Installations.{
  GithubInstallation, recheck_installation, remove_gone, recheck_installations,
}

verify_if_known-IsSound :
    (now : ℕ) (e : Option ChangelogEntry) (r : Option Repository)
    → Respects KeepsSound (verify_if_known now e r)
unfolding verify_if_known
verify_if_known-IsSound now (some entry) (some repo) =
    search (sound_rules, enqueue_verification-IsSound)
verify_if_known-IsSound now (some entry) none = search sound_rules
verify_if_known-IsSound now none r = search sound_rules

sync_merged-IsSound :
    (now : ℕ) (row : PullRequest) (s : Summary) → Respects KeepsSound (sync_merged now row s)
unfolding sync_merged
sync_merged-IsSound now row s =
    search (sound_rules, set_pull_state-IsSound, verify_if_known-IsSound) depth 10

sync_rejected-IsSound :
    (now : ℕ) (w : Work) (row : PullRequest) (s : Summary)
    → Respects KeepsSound (sync_rejected now w row s)
unfolding sync_rejected
sync_rejected-IsSound now w row s = search (sound_rules, set_pull_state-IsSound) depth 8

sync_row-IsSound :
    (now : ℕ) (w : Work) (closed has_merged_at : Bool) (s : Summary) (o : Option PullRequest)
    → Respects KeepsSound (sync_row now w closed has_merged_at s o)
unfolding sync_row
sync_row-IsSound now w closed has_merged_at s none = search sound_rules
sync_row-IsSound now w closed has_merged_at s (some row) =
    search (sound_rules, sync_merged-IsSound, sync_rejected-IsSound) depth 8

sync_pull-IsSound :
    (now : ℕ) (w : Work) (s : Summary) (a : PullAnswer) → Respects KeepsSound (sync_pull now w s a)
unfolding sync_pull
sync_pull-IsSound now w s unreachable = search sound_rules
sync_pull-IsSound now w s (pull_state closed has_merged_at) = search (sound_rules, sync_row-IsSound)

sync_all-IsSound :
    (now : ℕ) (answers : Work → PullAnswer) (ws : List Work) (s : Summary)
    → Respects KeepsSound (sync_all now answers ws s)
unfolding sync_all
sync_all-IsSound now answers [] s = search sound_rules
sync_all-IsSound now answers (w ∷ ws) s =
    Respects-bind KeepsSound-IsHistory _ _ (sync_pull-IsSound now w s (answers w))
      (sync_all-IsSound now answers ws)

-- Asking GitHub for the states of all open pull requests, whatever it answers and also where one of the
-- transactions raises, keeps the coverage board sound.
pub sync_pull_requests-IsSound :
    (now : ℕ) (answers : Work → PullAnswer) → Respects KeepsSound (sync_pull_requests now answers)
unfolding sync_pull_requests
sync_pull_requests-IsSound now answers = search (sound_rules, sync_all-IsSound) depth 8

recheck_installation-IsSound :
    (g : GithubInstallation) → Respects KeepsSound (recheck_installation g)
unfolding recheck_installation
recheck_installation-IsSound g = search (sound_rules, upsert_repository-IsSound) depth 8

-- A recheck of the installations, whatever GitHub lists and also where its transaction raises, keeps the
-- coverage board sound.
pub recheck_installations-IsSound :
    (gs : List GithubInstallation) → Respects KeepsSound (recheck_installations gs)
unfolding recheck_installations remove_gone
recheck_installations-IsSound gs = search (sound_rules, recheck_installation-IsSound) depth 10
