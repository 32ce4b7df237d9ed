-- ===== src/Webhooks/Deliveries.antt =====
-- What the handlers call leaves the table of deliveries alone.
use patchline.Prelude.{
  ℕ, ◌≡◌, refl, ◌∙◌, Bool, true, false, Option, none, some, List, [], ◌∷◌, Text, arith,
}
use patchline.Models.{
  Database, CoverageState, ChangelogEntry, Repository, PullRequest, PullRequestState, ScanJob,
  Notification,
}
use patchline.Tx.{change}
use patchline.Tx.Respects.{Respects, IsHistory, Respects-change, respects_rules}
use patchline.Env.{Env}
use patchline.ConfigStore.{
  get_config_value, set_config_value, stored_instance_id, instance_id_from, instance_id,
}
use patchline.Notifications.{
  Notice, record_notification, record_outcome, flush_rows, flush_pending, pending_rows,
}
use patchline.Coverage.{Transition, apply_transition, write_transition}
use patchline.Jobs.Enqueue.{
  enqueue_repository, enqueue_scans_for_entry, add_verification, enqueue_verification,
}
use patchline.Webhooks.Repositories.{
  RepoData, upsert_named, upsert_repository, scan_entry, auto_scan_ready_entries,
}
use patchline.Webhooks.Handlers.{
  InstallationEvent, apply_installation, RepositoriesEvent, remove_repository,
  apply_installation_repositories, PullEvent, pull_closed, pull_opened, pull_other, set_pull_state,
  verify_merge, pull_merged, pull_rejected, apply_pull_action, PullAction, apply_pull_named,
  apply_pull_row, apply_pull_repo, apply_pull_request,
}
use patchline.Webhooks.Process.{
  Event, installation, installation_repositories, pull_request, unhandled, handle_event,
}

-- The table of deliveries after is the one before.
abbrev pub KeepsDeliveries : Database → Database → Type 0
KeepsDeliveries a b = b.deliveries ≡ a.deliveries

keeps-IsHistory : IsHistory KeepsDeliveries
keeps-IsHistory = record { stay = λ db. refl; go_on = λ a b c ab bc. bc ∙ ab }

change-Keeps :
    (f : Database → Database)
    → ((db : Database) → (f db).deliveries ≡ db.deliveries)
    → Respects KeepsDeliveries (change f)
change-Keeps f h = Respects-change keeps-IsHistory f h

write_transition-Keeps :
    (now : ℕ) (t : Transition) (row : CoverageState) (rows : List CoverageState) (db : Database)
    → KeepsDeliveries db (write_transition now t row rows db).1
unfolding write_transition
write_transition-Keeps now t row rows db = ground arith

apply_transition-Keeps :
    (now : ℕ) (t : Transition) → Respects KeepsDeliveries (apply_transition now t)
unfolding apply_transition
apply_transition-Keeps now t = record { at = λ db. write_transition-Keeps now t _ _ db }

ruleset delivery_rules = (respects_rules, keeps-IsHistory, change-Keeps, apply_transition-Keeps)

set_config_value-Keeps : (k v : Text) → Respects KeepsDeliveries (set_config_value k v)
unfolding set_config_value
set_config_value-Keeps k v = search delivery_rules

stored_instance_id-Keeps :
    (env : Env) (o : Option Text) → Respects KeepsDeliveries (stored_instance_id env o)
unfolding stored_instance_id
stored_instance_id-Keeps env (some (c ∷ s)) = search delivery_rules
stored_instance_id-Keeps env (some []) = search (delivery_rules, set_config_value-Keeps)
stored_instance_id-Keeps env none = search (delivery_rules, set_config_value-Keeps)

instance_id_from-Keeps :
    (env : Env) (o : Option Text) → Respects KeepsDeliveries (instance_id_from env o)
unfolding instance_id_from get_config_value
instance_id_from-Keeps env (some value) = search delivery_rules
instance_id_from-Keeps env none = search (delivery_rules, stored_instance_id-Keeps)

instance_id-Keeps : (env : Env) → Respects KeepsDeliveries (instance_id env)
unfolding instance_id
instance_id-Keeps env = instance_id_from-Keeps env _

record_notification-Keeps :
    (env : Env) (i : Text) (n : Notice) → Respects KeepsDeliveries (record_notification env i n)
unfolding record_notification
record_notification-Keeps env i n = search delivery_rules

ruleset delivery_service_rules = (delivery_rules, instance_id-Keeps, record_notification-Keeps)

enqueue_repository-Keeps :
    (now : ℕ) (entry : ChangelogEntry) (priority : ℕ) (repo : Repository)
    → Respects KeepsDeliveries (enqueue_repository now entry priority repo)
unfolding enqueue_repository
enqueue_repository-Keeps now entry priority repo = search delivery_rules

enqueue_scans_for_entry-Keeps :
    (now : ℕ) (entry : ChangelogEntry) (repos : List Repository) (priority : ℕ)
    → Respects KeepsDeliveries (enqueue_scans_for_entry now entry repos priority)
unfolding enqueue_scans_for_entry
enqueue_scans_for_entry-Keeps now entry repos priority =
    search (delivery_rules, enqueue_repository-Keeps)

add_verification-Keeps :
    (now : ℕ) (entry : ChangelogEntry) (repo : Repository) (delay : ℕ) (o : Option ScanJob)
    → Respects KeepsDeliveries (add_verification now entry repo delay o)
unfolding add_verification
add_verification-Keeps now entry repo delay none = search delivery_rules
add_verification-Keeps now entry repo delay (some job) = search delivery_rules

enqueue_verification-Keeps :
    (now : ℕ) (entry : ChangelogEntry) (repo : Repository) (delay : ℕ)
    → Respects KeepsDeliveries (enqueue_verification now entry repo delay)
unfolding enqueue_verification
enqueue_verification-Keeps now entry repo delay = search (delivery_rules, add_verification-Keeps)

upsert_named-Keeps :
    (inst : ℕ) (d : RepoData) (o : Option Text) → Respects KeepsDeliveries (upsert_named inst d o)
unfolding upsert_named
upsert_named-Keeps inst d none = search delivery_rules
upsert_named-Keeps inst d (some []) = search delivery_rules
upsert_named-Keeps inst d (some (c ∷ s)) = search delivery_rules

upsert_repository-Keeps :
    (inst : ℕ) (d : RepoData) → Respects KeepsDeliveries (upsert_repository inst d)
unfolding upsert_repository
upsert_repository-Keeps inst d = upsert_named-Keeps inst d d.full_name

scan_entry-Keeps :
    (now : ℕ) (repos : List Repository) (entry : ChangelogEntry)
    → Respects KeepsDeliveries (scan_entry now repos entry)
unfolding scan_entry
scan_entry-Keeps now repos entry = search (delivery_rules, enqueue_scans_for_entry-Keeps)

auto_scan_ready_entries-Keeps : (now : ℕ) → Respects KeepsDeliveries (auto_scan_ready_entries now)
unfolding auto_scan_ready_entries
auto_scan_ready_entries-Keeps now = search (delivery_rules, scan_entry-Keeps)

apply_installation-Keeps :
    (now : ℕ) (e : InstallationEvent) → Respects KeepsDeliveries (apply_installation now e)
unfolding apply_installation
apply_installation-Keeps now e =
    search (delivery_rules, upsert_repository-Keeps, auto_scan_ready_entries-Keeps) depth 10

remove_repository-Keeps : (name : Text) → Respects KeepsDeliveries (remove_repository name)
unfolding remove_repository
remove_repository-Keeps name = search delivery_rules

apply_installation_repositories-Keeps :
    (now : ℕ) (e : RepositoriesEvent)
    → Respects KeepsDeliveries (apply_installation_repositories now e)
unfolding apply_installation_repositories
apply_installation_repositories-Keeps now e =
    search
      (
        delivery_rules, upsert_repository-Keeps, remove_repository-Keeps,
        auto_scan_ready_entries-Keeps,
      )
      depth 10

set_pull_state-Keeps :
    (i : ℕ) (s : PullRequestState) → Respects KeepsDeliveries (set_pull_state i s)
unfolding set_pull_state
set_pull_state-Keeps i s = search delivery_rules

verify_merge-Keeps :
    (now : ℕ) (repo : Repository) (o : Option ChangelogEntry)
    → Respects KeepsDeliveries (verify_merge now repo o)
unfolding verify_merge
verify_merge-Keeps now repo none = search delivery_rules
verify_merge-Keeps now repo (some entry) = search (delivery_rules, enqueue_verification-Keeps)

pull_merged-Keeps :
    (env : Env) (repo : Repository) (row : PullRequest) (name : Text) (n : ℕ)
    → Respects KeepsDeliveries (pull_merged env repo row name n)
unfolding pull_merged
pull_merged-Keeps env repo row name n =
    search (delivery_service_rules, set_pull_state-Keeps, verify_merge-Keeps) depth 12

pull_rejected-Keeps :
    (env : Env) (repo : Repository) (row : PullRequest) (name : Text) (n : ℕ)
    → Respects KeepsDeliveries (pull_rejected env repo row name n)
unfolding pull_rejected
pull_rejected-Keeps env repo row name n =
    search (delivery_service_rules, set_pull_state-Keeps) depth 12

apply_pull_action-Keeps :
    (env : Env) (a : PullAction) (b : Bool) (repo : Repository) (name : Text) (n : ℕ)
    (row : PullRequest)
    → Respects KeepsDeliveries (apply_pull_action env a b repo name n row)
unfolding apply_pull_action
apply_pull_action-Keeps env pull_closed true repo name n row = pull_merged-Keeps env repo row name n
apply_pull_action-Keeps env pull_closed false repo name n row =
    pull_rejected-Keeps env repo row name n
apply_pull_action-Keeps env pull_opened b repo name n row = set_pull_state-Keeps _ _
apply_pull_action-Keeps env pull_other b repo name n row = search delivery_rules

apply_pull_row-Keeps :
    (env : Env) (e : PullEvent) (repo : Repository) (name : Text) (n : ℕ) (o : Option PullRequest)
    → Respects KeepsDeliveries (apply_pull_row env e repo name n o)
unfolding apply_pull_row
apply_pull_row-Keeps env e repo name n none = search delivery_rules
apply_pull_row-Keeps env e repo name n (some row) = apply_pull_action-Keeps env _ _ repo name n row

apply_pull_repo-Keeps :
    (env : Env) (e : PullEvent) (name : Text) (n : ℕ) (o : Option Repository)
    → Respects KeepsDeliveries (apply_pull_repo env e name n o)
unfolding apply_pull_repo
apply_pull_repo-Keeps env e name n none = search delivery_rules
apply_pull_repo-Keeps env e name n (some repo) = search (delivery_rules, apply_pull_row-Keeps)

apply_pull_named-Keeps :
    (env : Env) (e : PullEvent) (name : Option Text) (n : Option ℕ)
    → Respects KeepsDeliveries (apply_pull_named env e name n)
unfolding apply_pull_named
apply_pull_named-Keeps env e (some (c ∷ s)) (some n) =
    search (delivery_rules, apply_pull_repo-Keeps)
apply_pull_named-Keeps env e (some (c ∷ s)) none = search delivery_rules
apply_pull_named-Keeps env e (some []) n = search delivery_rules
apply_pull_named-Keeps env e none n = search delivery_rules

pub handle_event-Keeps : (env : Env) (e : Event) → Respects KeepsDeliveries (handle_event env e)
unfolding handle_event apply_pull_request
handle_event-Keeps env (installation e) = apply_installation-Keeps env.now e
handle_event-Keeps env (installation_repositories e) =
    apply_installation_repositories-Keeps env.now e
handle_event-Keeps env (pull_request e) = apply_pull_named-Keeps env e e.repo_full e.number
handle_event-Keeps env unhandled = search delivery_rules

flush_rows-Keeps :
    (env : Env) (rows : List Notification) (n : ℕ) (db : Database)
    → KeepsDeliveries db (flush_rows env rows n db).1
unfolding flush_rows record_outcome
flush_rows-Keeps env [] n db = refl
flush_rows-Keeps env (r ∷ rows) n db = flush_rows-Keeps env rows _ _

pub flush_pending-Keeps : (env : Env) (db : Database) → KeepsDeliveries db (flush_pending env db).1
unfolding flush_pending
flush_pending-Keeps env db = ground (arith, flush_rows-Keeps env (pending_rows db) 0 db)
