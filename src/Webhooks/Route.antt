-- ===== src/Webhooks/Route.antt =====
-- POST /webhooks/github (src/patchline/routes/webhooks.py).
use patchline.Prelude.{ℕ, Option, none, some, [], ◌∷◌, Text, text, or_blank, if◌then◌else◌}
use patchline.Tx.{Tx, pure, catch, ◌>>=◌}
use patchline.Env.{Env}
use patchline.Security.{Hmac, verify_github_signature}
use patchline.Webhooks.Process.{Event, Processed, process_webhook}

pub data WebhookReply : Type 0 where
  accepted : Processed → WebhookReply
  refused : ℕ → WebhookReply

-- The headers that the route reads.
pub record Headers : Type 0 where
  pub signature : Option Text
  pub delivery_id : Option Text
  pub event_type : Option Text

-- Any exception of process_webhook is answered with status 500.
unfoldable pub process_event : Env → Text → Text → Option Event → Tx WebhookReply
unfolding process_webhook
process_event env delivery_id event_type none = pure (refused 400)
process_event env delivery_id event_type (some event) =
    catch (do result ← process_webhook env delivery_id event_type event; pure (accepted result))
      (λ e. pure (refused 500))

-- A delivery has to have an id.
unfoldable pub process_delivery :
    Env → (Text → Text → Option Event) → Text → Text → Text → Tx WebhookReply
unfolding process_event
process_delivery env read_event body event_type [] = pure (refused 400)
process_delivery env read_event body event_type (c ∷ delivery_id) =
    process_event env (c ∷ delivery_id) event_type (read_event event_type body)

-- `read_event` decodes a body of JSON, with what the event's handler prepares.
unfoldable pub github_webhook :
    Hmac → Env → (Text → Text → Option Event) → Headers → Text → Tx WebhookReply
unfolding verify_github_signature process_delivery
github_webhook hmac env read_event headers body =
    if verify_github_signature hmac (or_blank (env.environ (text "GITHUB_WEBHOOK_SECRET"))) body
      headers.signature
    then process_delivery env read_event body (or_blank headers.event_type)
        (or_blank headers.delivery_id)
    else pure (refused 401)
