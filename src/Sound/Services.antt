-- ===== src/Sound/Services.antt =====
-- The configuration table and the notifications leave the board alone.
use patchline.Prelude.{ℕ, Option, none, some, List, [], ◌∷◌, Text, Bool-cases, inl, inr}
use patchline.Models.{Database, Notification}
use patchline.Tx.Respects.{Respects}
use patchline.Env.{Env}
use patchline.ConfigStore.{
  get_config_value, set_config_value, stored_instance_id, instance_id_from, instance_id,
  engine_consecutive_failures, record_engine_failure, record_engine_success,
}
use patchline.Notifications.{
  Notice, record_notification, record_outcome, flush_rows, flush_pending, pending_rows,
  notifications_enabled,
}
use patchline.Coverage.Sound.{IsSound, KeepsSound, KeepsSound-IsHistory, sound_rules}

pub set_config_value-IsSound : (k v : Text) → Respects KeepsSound (set_config_value k v)
unfolding set_config_value
set_config_value-IsSound k v = search sound_rules

stored_instance_id-IsSound :
    (env : Env) (o : Option Text) → Respects KeepsSound (stored_instance_id env o)
unfolding stored_instance_id
stored_instance_id-IsSound env (some (c ∷ s)) = search sound_rules
stored_instance_id-IsSound env (some []) = search (sound_rules, set_config_value-IsSound)
stored_instance_id-IsSound env none = search (sound_rules, set_config_value-IsSound)

instance_id_from-IsSound :
    (env : Env) (o : Option Text) → Respects KeepsSound (instance_id_from env o)
unfolding instance_id_from get_config_value
instance_id_from-IsSound env (some value) = search sound_rules
instance_id_from-IsSound env none = search (sound_rules, stored_instance_id-IsSound)

pub instance_id-IsSound : (env : Env) → Respects KeepsSound (instance_id env)
unfolding instance_id
instance_id-IsSound env = instance_id_from-IsSound env _

pub record_engine_failure-IsSound : Respects KeepsSound record_engine_failure
unfolding record_engine_failure engine_consecutive_failures get_config_value
record_engine_failure-IsSound = search (sound_rules, set_config_value-IsSound)

pub record_engine_success-IsSound : Respects KeepsSound record_engine_success
unfolding record_engine_success
record_engine_success-IsSound = set_config_value-IsSound _ _

pub record_notification-IsSound :
    (env : Env) (i : Text) (n : Notice) → Respects KeepsSound (record_notification env i n)
unfolding record_notification
record_notification-IsSound env i n = search sound_rules

flush_rows-IsSound :
    (env : Env) (rows : List Notification) (n : ℕ) (db : Database)
    → IsSound db
    → IsSound (flush_rows env rows n db).1
unfolding flush_rows record_outcome
flush_rows-IsSound env [] n db h = h
flush_rows-IsSound env (r ∷ rows) n db h =
    flush_rows-IsSound env rows _ _ (record { unique = h.unique; audited = h.audited })

pub flush_pending-IsSound : (env : Env) → Respects KeepsSound (flush_pending env)
unfolding flush_pending
flush_pending-IsSound env = record {
  at = λ db h. elim (Bool-cases (notifications_enabled env)) [
    | inl e ↦ rw e (flush_rows-IsSound env (pending_rows db) 0 db h)
    | inr e ↦ rw e h
  ];
}

pub ruleset service_rules = (
  sound_rules, instance_id-IsSound, record_engine_failure-IsSound, record_engine_success-IsSound,
  record_notification-IsSound, flush_pending-IsSound,
)
