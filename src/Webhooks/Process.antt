-- ===== src/Webhooks/Process.antt =====
-- process_webhook: one transaction for one delivery.
use patchline.Prelude.{
  ℕ, Bool, true, false, Option, none, some, List, [], ◌∷◌, ◌++◌, Text, same, find, if◌then◌else◌,
}
use patchline.Models.{Database, WebhookDelivery, processing, succeeded, delivery_table}
use patchline.Query.{modify, next_id}
use patchline.Tx.{Tx, pure, gets, change, session_scope, ◌>>=◌, ◌>>◌}
use patchline.Env.{Env}
use patchline.Notifications.{flush_pending}
use patchline.Webhooks.Handlers.{
  InstallationEvent, RepositoriesEvent, PullEvent, apply_installation,
  apply_installation_repositories, apply_pull_request,
}

-- An event as its handler's `prepare` leaves it; any other event has no handler.
pub data Event : Type 0 where
  installation : InstallationEvent → Event
  installation_repositories : RepositoriesEvent → Event
  pull_request : PullEvent → Event
  unhandled : Event

pub data Processed : Type 0 where
  processed skipped : Processed

abbrev pub is_delivery : Text → WebhookDelivery → Bool
is_delivery delivery_id row = same row.github_delivery_id delivery_id

abbrev pub is_succeeded : Option WebhookDelivery → Bool
is_succeeded none = false
is_succeeded (some row) = elim row.status [ succeeded ↦ true | _ ↦ false ]

-- delivery_already_succeeded
unfoldable pub delivery_already_succeeded : Text → Database → Bool
delivery_already_succeeded delivery_id db =
    is_succeeded (find (is_delivery delivery_id) db.deliveries)

abbrev new_delivery : ℕ → Text → Text → WebhookDelivery
new_delivery i delivery_id event_type = record {
  id = i;
  github_delivery_id = delivery_id;
  event_type = event_type;
  status = processing;
  processed_at = none;
}

-- The delivery row is added, or taken up again.
abbrev pub begin_with :
    Text → Text → List WebhookDelivery → Option WebhookDelivery → List WebhookDelivery
begin_with delivery_id event_type rows none =
    rows ++ new_delivery (next_id rows) delivery_id event_type ∷ []
begin_with delivery_id event_type rows (some row) =
    modify (is_delivery delivery_id) (λ r. record r { status = processing }) rows

unfoldable pub begin_delivery : Text → Text → List WebhookDelivery → List WebhookDelivery
begin_delivery delivery_id event_type rows =
    begin_with delivery_id event_type rows (find (is_delivery delivery_id) rows)

unfoldable pub end_delivery : ℕ → Text → List WebhookDelivery → List WebhookDelivery
end_delivery now delivery_id rows =
    modify (is_delivery delivery_id) (λ r. record r { status = succeeded; processed_at = some now })
      rows

unfoldable pub handle_event : Env → Event → Tx (Unit {0})
unfolding apply_installation apply_installation_repositories apply_pull_request
handle_event env (installation e) = apply_installation env.now e
handle_event env (installation_repositories e) = apply_installation_repositories env.now e
handle_event env (pull_request e) = apply_pull_request env e
handle_event env unhandled = pure tt

-- The single transaction.
unfoldable pub deliver_event : Env → Text → Text → Event → Tx (Unit {0})
unfolding begin_delivery handle_event end_delivery
deliver_event env delivery_id event_type e = do
  change (λ db. record db { deliveries = begin_delivery delivery_id event_type db.deliveries })
  handle_event env e
  change (λ db. record db { deliveries = end_delivery env.now delivery_id db.deliveries })

unfoldable pub process_webhook : Env → Text → Text → Event → Tx Processed
unfolding delivery_already_succeeded deliver_event
process_webhook env delivery_id event_type e = do
  done ← gets (delivery_already_succeeded delivery_id)
  if done then pure skipped else (do
    session_scope (deliver_event env delivery_id event_type e)
    flush_pending env
    pure processed)
