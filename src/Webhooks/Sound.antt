-- ===== src/Webhooks/Sound.antt =====
-- Webhooks keep the coverage board sound.
use patchline.Prelude.{ℕ, Bool, true, false, Option, none, some, List, [], ◌∷◌, Text}
use patchline.Models.{ChangelogEntry, Repository, PullRequest, PullRequestState}
use patchline.Tx.Respects.{Respects}
use patchline.Env.{Env}
use patchline.Coverage.Sound.{KeepsSound, sound_rules}
use patchline.Sound.Services.{service_rules}
use patchline.Sound.Queue.{enqueue_scans_for_entry-IsSound, enqueue_verification-IsSound}
use patchline.Webhooks.Repositories.{
  RepoData, upsert_named, upsert_repository, scan_entry, auto_scan_ready_entries,
}
use patchline.Webhooks.Handlers.{
  InstallationEvent, apply_installation, RepositoriesEvent, remove_repository,
  apply_installation_repositories, PullEvent, pull_closed, pull_opened, pull_other, set_pull_state,
  verify_merge, pull_merged, pull_rejected, apply_pull_action, PullAction, apply_pull_named,
  apply_pull_row, apply_pull_repo, apply_pull_request,
}
use patchline.Webhooks.Process.{
  Event, installation, installation_repositories, pull_request, unhandled, handle_event,
  deliver_event, process_webhook,
}

upsert_named-IsSound :
    (inst : ℕ) (d : RepoData) (o : Option Text) → Respects KeepsSound (upsert_named inst d o)
unfolding upsert_named
upsert_named-IsSound inst d none = search sound_rules
upsert_named-IsSound inst d (some []) = search sound_rules
upsert_named-IsSound inst d (some (c ∷ s)) = search sound_rules

pub upsert_repository-IsSound :
    (inst : ℕ) (d : RepoData) → Respects KeepsSound (upsert_repository inst d)
unfolding upsert_repository
upsert_repository-IsSound inst d = upsert_named-IsSound inst d d.full_name

scan_entry-IsSound :
    (now : ℕ) (repos : List Repository) (entry : ChangelogEntry)
    → Respects KeepsSound (scan_entry now repos entry)
unfolding scan_entry
scan_entry-IsSound now repos entry = search (sound_rules, enqueue_scans_for_entry-IsSound)

auto_scan_ready_entries-IsSound : (now : ℕ) → Respects KeepsSound (auto_scan_ready_entries now)
unfolding auto_scan_ready_entries
auto_scan_ready_entries-IsSound now = search (sound_rules, scan_entry-IsSound)

apply_installation-IsSound :
    (now : ℕ) (e : InstallationEvent) → Respects KeepsSound (apply_installation now e)
unfolding apply_installation
apply_installation-IsSound now e =
    search (sound_rules, upsert_repository-IsSound, auto_scan_ready_entries-IsSound) depth 10

remove_repository-IsSound : (name : Text) → Respects KeepsSound (remove_repository name)
unfolding remove_repository
remove_repository-IsSound name = search sound_rules

apply_installation_repositories-IsSound :
    (now : ℕ) (e : RepositoriesEvent) → Respects KeepsSound (apply_installation_repositories now e)
unfolding apply_installation_repositories
apply_installation_repositories-IsSound now e =
    search
      (
        sound_rules, upsert_repository-IsSound, remove_repository-IsSound,
        auto_scan_ready_entries-IsSound,
      )
      depth 10

pub set_pull_state-IsSound :
    (i : ℕ) (s : PullRequestState) → Respects KeepsSound (set_pull_state i s)
unfolding set_pull_state
set_pull_state-IsSound i s = search sound_rules

verify_merge-IsSound :
    (now : ℕ) (repo : Repository) (o : Option ChangelogEntry)
    → Respects KeepsSound (verify_merge now repo o)
unfolding verify_merge
verify_merge-IsSound now repo none = search sound_rules
verify_merge-IsSound now repo (some entry) = search (sound_rules, enqueue_verification-IsSound)

pull_merged-IsSound :
    (env : Env) (repo : Repository) (row : PullRequest) (name : Text) (n : ℕ)
    → Respects KeepsSound (pull_merged env repo row name n)
unfolding pull_merged
pull_merged-IsSound env repo row name n =
    search (service_rules, set_pull_state-IsSound, verify_merge-IsSound) depth 12

pull_rejected-IsSound :
    (env : Env) (repo : Repository) (row : PullRequest) (name : Text) (n : ℕ)
    → Respects KeepsSound (pull_rejected env repo row name n)
unfolding pull_rejected
pull_rejected-IsSound env repo row name n = search (service_rules, set_pull_state-IsSound) depth 12

apply_pull_action-IsSound :
    (env : Env) (a : PullAction) (b : Bool) (repo : Repository) (name : Text) (n : ℕ)
    (row : PullRequest)
    → Respects KeepsSound (apply_pull_action env a b repo name n row)
unfolding apply_pull_action
apply_pull_action-IsSound env pull_closed true repo name n row =
    pull_merged-IsSound env repo row name n
apply_pull_action-IsSound env pull_closed false repo name n row =
    pull_rejected-IsSound env repo row name n
apply_pull_action-IsSound env pull_opened b repo name n row = set_pull_state-IsSound _ _
apply_pull_action-IsSound env pull_other b repo name n row = search sound_rules

apply_pull_row-IsSound :
    (env : Env) (e : PullEvent) (repo : Repository) (name : Text) (n : ℕ) (o : Option PullRequest)
    → Respects KeepsSound (apply_pull_row env e repo name n o)
unfolding apply_pull_row
apply_pull_row-IsSound env e repo name n none = search sound_rules
apply_pull_row-IsSound env e repo name n (some row) =
    apply_pull_action-IsSound env _ _ repo name n row

apply_pull_repo-IsSound :
    (env : Env) (e : PullEvent) (name : Text) (n : ℕ) (o : Option Repository)
    → Respects KeepsSound (apply_pull_repo env e name n o)
unfolding apply_pull_repo
apply_pull_repo-IsSound env e name n none = search sound_rules
apply_pull_repo-IsSound env e name n (some repo) = search (sound_rules, apply_pull_row-IsSound)

apply_pull_named-IsSound :
    (env : Env) (e : PullEvent) (name : Option Text) (n : Option ℕ)
    → Respects KeepsSound (apply_pull_named env e name n)
unfolding apply_pull_named
apply_pull_named-IsSound env e (some (c ∷ s)) (some n) =
    search (sound_rules, apply_pull_repo-IsSound)
apply_pull_named-IsSound env e (some (c ∷ s)) none = search sound_rules
apply_pull_named-IsSound env e (some []) n = search sound_rules
apply_pull_named-IsSound env e none n = search sound_rules

pub handle_event-IsSound : (env : Env) (e : Event) → Respects KeepsSound (handle_event env e)
unfolding handle_event apply_pull_request
handle_event-IsSound env (installation e) = apply_installation-IsSound env.now e
handle_event-IsSound env (installation_repositories e) =
    apply_installation_repositories-IsSound env.now e
handle_event-IsSound env (pull_request e) = apply_pull_named-IsSound env e e.repo_full e.number
handle_event-IsSound env unhandled = search sound_rules

deliver_event-IsSound :
    (env : Env) (i t : Text) (e : Event) → Respects KeepsSound (deliver_event env i t e)
unfolding deliver_event
deliver_event-IsSound env i t e = search (sound_rules, handle_event-IsSound) depth 8

-- Processing a webhook, whatever its event and also where its transaction raises, keeps the coverage board
-- sound.
pub process_webhook-IsSound :
    (env : Env) (i t : Text) (e : Event) → Respects KeepsSound (process_webhook env i t e)
unfolding process_webhook
process_webhook-IsSound env i t e = search (service_rules, deliver_event-IsSound) depth 8
