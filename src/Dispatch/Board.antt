-- ===== src/Dispatch/Board.antt =====
-- What the end of a dispatch does to the coverage board, and that it keeps the board sound.
use patchline.Notifications.{flush_pending}
use patchline.Query.{get}
use patchline.Models.{remediation_table}
use patchline.Coverage.Board.{status_of, is_allowed}
use patchline.Prelude.{◌==◌, ◌&&◌, arith, ℕ, ◌≡◌, refl, Option, none, some, Text, if◌then◌else◌}
use patchline.Models.{Database, Status, pr_open, Remediation}
use patchline.Tx.{gets, is_ok, Tx, pure, session_scope, ◌>>=◌, ◌>>◌}
use patchline.Tx.Respects.{Respects}
use patchline.Env.{Env}
use patchline.Coverage.Sound.{KeepsSound, sound_rules}
use patchline.Sound.Services.{service_rules}
use patchline.Coverage.Effect.{
  Moves, IsQuiet-bind, Moves-after, Moves-before, Moves-session_scope, Moves-apply_transition,
  quiet_rules,
}
use patchline.Scanning.Outcome.{
  instance_id-IsQuiet, record_notification-IsQuiet, flush_pending-IsQuiet,
}
use patchline.Dispatch.Github.{Answer, answered, raised}
use patchline.Dispatch.Gate.{DispatchContext}
use patchline.Dispatch.Push.{Pushed}
use patchline.Dispatch.Run.{
  Dispatched, dispatched, dispatch_failed, mark_dispatch_failed, require_remediation, store_pull,
  record_pull, failure_text, settle_dispatch, mark_migrated_manually,
}

-- The status that the end of a dispatch asks for.
abbrev pub asked_status : Answer Pushed → Status
asked_status (answered p) = pr_open
asked_status (raised e) = Status.dispatch_failed

mark_dispatch_failed-Moves :
    (now id : ℕ) (c : DispatchContext) (m : Text)
    → Moves (mark_dispatch_failed now id c m) c.entry_id c.repo_id (some Status.dispatch_failed)
unfolding mark_dispatch_failed
mark_dispatch_failed-Moves now id c m = Moves-after _ _ _ _ _ (search quiet_rules) λ _.
    Moves-after _ _ _ _ _ (search quiet_rules) λ i.
      Moves-after _ _ _ _ _ (search quiet_rules) λ known.
        Moves-after _ _ _ _ _ (search quiet_rules)
          λ _. Moves-before _ _ _ _ _ (Moves-apply_transition now _) (λ x. search quiet_rules)

mark_dispatch_failed-IsSound :
    (now id : ℕ) (c : DispatchContext) (m : Text)
    → Respects KeepsSound (mark_dispatch_failed now id c m)
unfolding mark_dispatch_failed
mark_dispatch_failed-IsSound now id c m = search sound_rules depth 12

require_remediation-IsSound : (o : Option Remediation) → Respects KeepsSound (require_remediation o)
unfolding require_remediation
require_remediation-IsSound none = search sound_rules
require_remediation-IsSound (some rem) = search sound_rules

record_pull-IsSound :
    (env : Env) (id : ℕ) (c : DispatchContext) (p : Pushed)
    → Respects KeepsSound (record_pull env id c p)
unfolding record_pull store_pull
record_pull-IsSound env id c p = search (service_rules, require_remediation-IsSound) depth 14

-- The end of a dispatch, whatever the calls gave, keeps the board sound.
pub settle_dispatch-IsSound :
    (env : Env) (id : ℕ) (c : DispatchContext) (a : Answer Pushed)
    → Respects KeepsSound (settle_dispatch env id c a)
unfolding settle_dispatch
settle_dispatch-IsSound env id c (answered p) = search (service_rules, record_pull-IsSound)
settle_dispatch-IsSound env id c (raised e) = search (sound_rules, mark_dispatch_failed-IsSound)

pub mark_migrated_manually-IsSound :
    (now entry repo : ℕ) → Respects KeepsSound (mark_migrated_manually now entry repo)
unfolding mark_migrated_manually
mark_migrated_manually-IsSound now entry repo = search sound_rules

store_pull-Moves :
    (env : Env) (id : ℕ) (c : DispatchContext) (p : Pushed)
    → Moves (store_pull env id c p) c.entry_id c.repo_id (some pr_open)
unfolding store_pull
store_pull-Moves env id c p = Moves-after _ _ _ _ _ (search quiet_rules) λ _.
    Moves-after _ _ _ _ _ (search quiet_rules) λ i. Moves-after _ _ _ _ _ (search quiet_rules) λ _.
      Moves-before _ _ _ _ _ (Moves-apply_transition env.now _) λ _.
        IsQuiet-bind _ _ (instance_id-IsQuiet env) λ n.
          IsQuiet-bind _ _ (record_notification-IsQuiet env n _ (λ e. cc)) (λ x. search quiet_rules)

-- The end of a dispatch whose remediation is still there.
abbrev end_of : Env → ℕ → DispatchContext → Answer Pushed → Tx Dispatched
end_of env id c (answered p) = do
  session_scope (store_pull env id c p)
  flush_pending env
  pure dispatched
end_of env id c (raised e) = do
  session_scope (mark_dispatch_failed env.now id c (failure_text e))
  pure dispatch_failed

end_of-Moves :
    (env : Env) (id : ℕ) (c : DispatchContext) (a : Answer Pushed)
    → Moves (end_of env id c a) c.entry_id c.repo_id (some (asked_status a))
end_of-Moves env id c (answered p) =
    Moves-before _ _ _ _ _ (Moves-session_scope _ _ _ _ (store_pull-Moves env id c p))
      λ x. IsQuiet-bind _ _ (flush_pending-IsQuiet env) (λ n. search quiet_rules)
end_of-Moves env id c (raised e) =
    Moves-before _ _ _ _ _ (Moves-session_scope _ _ _ _ (mark_dispatch_failed-Moves env.now id c _))
      (λ x. search quiet_rules)

settle_dispatch-end_of :
    (env : Env) (id : ℕ) (c : DispatchContext) (a : Answer Pushed) (db : Database)
    {rem : Remediation}
    → get id db.remediations ≡ some rem
    → settle_dispatch env id c a db ≡ end_of env id c a db
unfolding settle_dispatch record_pull require_remediation session_scope ◌>>=◌ gets pure
settle_dispatch-end_of env id c (answered p) db h = rw h
settle_dispatch-end_of env id c (raised e) db h = refl

-- The end of a dispatch returns exactly if the board may go on to `pr_open`, where the calls gave a pull
-- request, or to `dispatch_failed`, where one of them raised. Then the pair of the remediation has that
-- status and no other pair moved; else no pair moved at all. The remediation has to be there.
pub settled_board :
    (env : Env) (id : ℕ) (c : DispatchContext) (a : Answer Pushed) (db : Database)
    {rem : Remediation}
    → get id db.remediations ≡ some rem
    → (is_ok (settle_dispatch env id c a db).0
        ≡ is_allowed (status_of db.coverage c.entry_id c.repo_id) (asked_status a))
      × ((e r : ℕ)
          → status_of (settle_dispatch env id c a db).1.coverage e r ≡ (
              if is_allowed (status_of db.coverage c.entry_id c.repo_id) (asked_status a)
                && (c.entry_id == e && c.repo_id == r)
              then asked_status a
              else status_of db.coverage e r))
settled_board env id c a db h =
    let m = end_of-Moves env id c a in
    rw (settle_dispatch-end_of env id c a db h) (m.answer db, λ e r. ground (arith, m.board db e r))
