-- ===== src/Webhooks/Once.antt =====
-- A delivery is processed once.
use patchline.Prelude.{
  ℕ, ◌≡◌, refl, Bool, true, false, Option, none, some, List, Text, find, same_refl, find-append,
  Bool-cases, inl, inr,
}
use mathlib.Core.Option
use patchline.Models.{Database, succeeded, processing, WebhookDelivery, delivery_table}
use patchline.Query.{find-modify_self}
use patchline.Tx.{
  Result, ok, err, is_ok, pure, gets, change, session_scope, settle, continue, ◌>>=◌, ◌>>◌,
}
use patchline.Env.{Env}
use patchline.Notifications.{flush_pending}
use patchline.Webhooks.Deliveries.{handle_event-Keeps, flush_pending-Keeps}
use patchline.Webhooks.Process.{
  Event, processed, skipped, is_delivery, is_succeeded, delivery_already_succeeded, begin_delivery,
  begin_with, end_delivery, handle_event, deliver_event, process_webhook,
}

abbrev is_there : Option WebhookDelivery → Bool
is_there none = false
is_there (some row) = true

map_there :
    (f : WebhookDelivery → WebhookDelivery) (o : Option WebhookDelivery)
    → is_there o ≡ true
    → is_there (Option.map f o) ≡ true
map_there f none h = h
map_there f (some row) h = refl

begin_with_there :
    (i t : Text) (rows : List WebhookDelivery) (o : Option WebhookDelivery)
    → find (is_delivery i) rows ≡ o
    → is_there (find (is_delivery i) (begin_with i t rows o)) ≡ true
unfolding find
begin_with_there i t rows none e = rw (find-append, e) (rw same_refl refl)
begin_with_there i t rows (some row) e =
    rw (find-modify_self (is_delivery i) (λ r. record r { status = processing }) rows (λ x h. h))
      (map_there _ (find (is_delivery i) rows) (rw e refl))

map_succeeded :
    (now : ℕ) (o : Option WebhookDelivery)
    → is_there o ≡ true
    → is_succeeded (
        Option.map {A = WebhookDelivery}
          (λ r. record r { status = succeeded; processed_at = some now })
          o)
      ≡ true
map_succeeded now none h = cc
map_succeeded now (some row) h = refl

end_delivery_succeeded :
    (now : ℕ) (i : Text) (rows : List WebhookDelivery)
    → is_there (find (is_delivery i) rows) ≡ true
    → is_succeeded (find (is_delivery i) (end_delivery now i rows)) ≡ true
unfolding end_delivery
end_delivery_succeeded now i rows h =
    rw
      (find-modify_self (is_delivery i)
        (λ r. record r { status = succeeded; processed_at = some now }) rows (λ x k. k))
      (map_succeeded now (find (is_delivery i) rows) h)

module _ (env : Env) (i t : Text) (e : Event) where
  deliver_event_succeeded :
      (db : Database)
      → is_ok (deliver_event env i t e db).0 ≡ true
      → delivery_already_succeeded i (deliver_event env i t e db).1 ≡ true
  unfolding deliver_event delivery_already_succeeded ◌>>=◌ change begin_delivery
  deliver_event_succeeded db h =
      let db1 = record db { deliveries = begin_delivery i t db.deliveries } in
      go (handle_event env e db1).0 (handle_event env e db1).1 ((handle_event-Keeps env e).at db1) h
    where
      go :
          (r : Result (Unit {0})) (new : Database)
          → new.deliveries ≡ begin_delivery i t db.deliveries
          → is_ok
              (continue r
                (λ _. change (λ d. record d { deliveries = end_delivery env.now i d.deliveries }))
                new).0
            ≡ true
          → delivery_already_succeeded i
              (continue r
                (λ _. change (λ d. record d { deliveries = end_delivery env.now i d.deliveries }))
                new).1
            ≡ true
      go (ok x) new k h =
          end_delivery_succeeded env.now i new.deliveries
            (rw k (begin_with_there i t db.deliveries (find (is_delivery i) db.deliveries) refl))
      go (err x) new k h = cc

  keep_database : (r : Result ℕ) (new : Database) → (continue r (λ _. pure processed) new).1 ≡ new
  unfolding pure
  keep_database (ok n) new = refl
  keep_database (err x) new = refl

  after_delivery_succeeded :
      (r : Result (Unit {0})) (old new : Database)
      → (is_ok r ≡ true → delivery_already_succeeded i new ≡ true)
      → let (r', db') = settle r old new in
        (continue r' (λ _. flush_pending env >> pure processed) db').0 ≡ ok processed
        → delivery_already_succeeded i
            (continue r' (λ _. flush_pending env >> pure processed) db').1
          ≡ true
  unfolding ◌>>=◌ delivery_already_succeeded
  after_delivery_succeeded (ok x) old new k h =
      rw
        (
          keep_database (flush_pending env new).0 (flush_pending env new).1,
          flush_pending-Keeps env new,
        )
        (k refl)
  after_delivery_succeeded (err x) old new k h = cc

  process_webhook_succeeded :
      (db : Database)
      → (process_webhook env i t e db).0 ≡ ok processed
      → delivery_already_succeeded i (process_webhook env i t e db).1 ≡ true
  unfolding process_webhook ◌>>=◌ gets pure session_scope
  process_webhook_succeeded db h = elim (Bool-cases (delivery_already_succeeded i db)) [
    | inl k ↦ rw k k
    | inr k ↦ rw k (
        after_delivery_succeeded (deliver_event env i t e db).0 db (deliver_event env i t e db).1
          (deliver_event_succeeded db) (rw k at h))
  ]

process_webhook_skips :
    (env : Env) (i t : Text) (e : Event) (db : Database)
    → delivery_already_succeeded i db ≡ true
    → process_webhook env i t e db ≡ (ok skipped, db)
unfolding process_webhook ◌>>=◌ gets pure
process_webhook_skips env i t e db h = rw h

-- When a delivery has been processed, the next one with the same identifier is skipped, whatever its event
-- and its time, and writes nothing.
pub process_webhook_once :
    (env later : Env) (i t t' : Text) (e e' : Event) (db : Database)
    → (process_webhook env i t e db).0 ≡ ok processed
    → process_webhook later i t' e' (process_webhook env i t e db).1
      ≡ (ok skipped, (process_webhook env i t e db).1)
process_webhook_once env later i t t' e e' db h =
    process_webhook_skips later i t' e' (process_webhook env i t e db).1
      (process_webhook_succeeded env i t e db h)
