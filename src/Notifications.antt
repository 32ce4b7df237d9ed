-- ===== src/Notifications.antt =====
-- Outgoing notifications (src/patchline/core/notifications.py): the payload, the queue of rows, and the
-- delivery with its retries. The HTTP client is a parameter: the answers to the attempts.
use patchline.Prelude.{
  ℕ, zero, suc, ◌+◌, ◌-◌, ◌*◌, ◌/◌, ◌^◌, Bool, true, false, ◌&&◌, ◌||◌, not, Option, none, some,
  List, [], ◌∷◌, ◌++◌, Text, text, min, max, take, filter, leb, ltb, ◌==◌, if◌then◌else◌,
}
use patchline.Models.{
  EventType, engine_failure, regression_detected, Regression, Payload, Notification,
  NotificationStatus, pending, sent, disabled, Database, notification_table,
}
use patchline.Query.{next_id, modify}
use patchline.Tx.{Tx, Result, ok, err, value_error, pure, gets, change, lift, ◌>>=◌, ◌>>◌}
use patchline.Env.{Env, notification_webhook_url, notification_signing_secret}

abbrev is_set : Option Text → Bool
is_set none = false
is_set (some s) = true

-- pairing_status() == "ok": both are set, or neither.
unfoldable pub is_paired : Env → Bool
is_paired env =
    let url = is_set (notification_webhook_url env) in
    let secret = is_set (notification_signing_secret env) in
    (url && secret) || (not url && not secret)

unfoldable pub notifications_enabled : Env → Bool
unfolding is_paired
notifications_enabled env = is_paired env && is_set (notification_webhook_url env)

-- The time of the next attempt: 60 s doubled for each failure, 3600 s at most, give or take a fifth.
unfoldable pub engine_failure_next_attempt_at : Env → ℕ → ℕ
engine_failure_next_attempt_at env failures =
    let base = min 3600 (60 * 2 ^ (failures - 1)) in
    let spread = base / 5 in env.now + max 1 (base - spread + env.draw (2 * spread))

-- The keyword arguments of build_payload. No caller passes `delivery_id`, `timestamp` or `extra`.
pub record Notice : Type 0 where
  pub event_type : EventType
  pub entry_id : Option ℕ
  pub repository_name : Option Text
  pub status : Option Text
  pub next_attempt_at : Option ℕ
  pub regression_type : Option Regression

abbrev pub notice : EventType → ℕ → Text → Text → Notice
notice event entry repo status = record {
  event_type = event;
  entry_id = some entry;
  repository_name = some repo;
  status = some status;
  next_attempt_at = none;
  regression_type = none;
}

abbrev or_next : Env → Option ℕ → ℕ
or_next env (some t) = t
or_next env none = engine_failure_next_attempt_at env 1

abbrev blank_payload : Env → Text → Text → Notice → Payload
blank_payload env delivery instance_id n = record {
  event_type = n.event_type;
  delivery_id = delivery;
  timestamp = env.now;
  entry_id = n.entry_id;
  repository_name = n.repository_name;
  status = n.status;
  instance_id = instance_id;
  next_attempt_at = none;
  regression_type = none;
}

-- build_payload, by the event type. An unknown event type cannot be written down.
unfoldable pub payload_for : EventType → Env → Text → Text → Notice → Result Payload
payload_for engine_failure env delivery instance_id n =
    ok (record (blank_payload env delivery instance_id n) {
      next_attempt_at = some (or_next env n.next_attempt_at);
    })
payload_for regression_detected env delivery instance_id n = elim n.regression_type [
  | none ↦ err (value_error (text "regression_detected requires regression_type"))
  | some kind ↦
      ok (record (blank_payload env delivery instance_id n) { regression_type = some kind })
]
payload_for _ env delivery instance_id n = ok (blank_payload env delivery instance_id n)

unfoldable pub build_payload : Env → Text → Text → Notice → Result Payload
unfolding payload_for
build_payload env delivery instance_id n = payload_for n.event_type env delivery instance_id n

abbrev queue_row : Env → Payload → ℕ → Notification
queue_row env payload i = record {
  id = i;
  event_type = payload.event_type;
  payload = payload;
  webhook_url = notification_webhook_url env;
  status = if notifications_enabled env then pending else disabled;
  attempts = 0;
  delivery_id = payload.delivery_id;
}

-- record_and_deliver with deliver_now=False, which is how every caller calls it.
unfoldable pub record_notification : Env → Text → Notice → Tx Notification
unfolding build_payload
record_notification env instance_id n = do
  i ← gets (λ db. next_id db.notifications)
  payload ← lift (build_payload env (env.uuid i) instance_id n)
  let row = queue_row env payload i
  change (λ db. record db { notifications = db.notifications ++ row ∷ [] })
  pure row

abbrev pub max_delivery_attempts : ℕ
max_delivery_attempts = 3

abbrev is_2xx : Option ℕ → Bool
is_2xx none = false
is_2xx (some code) = leb 200 code && ltb code 300

-- The loop over the attempts: `answers k` is the status code of attempt k, or none if it raised.
-- It returns whether an attempt succeeded, and how many were made.
unfoldable pub attempt : (ℕ → Option ℕ) → ℕ → ℕ → Bool × ℕ
attempt answers zero made = (false, made)
attempt answers (suc left) made =
    let rest = attempt answers left (made + 1) in
    if is_2xx (answers (made + 1)) then (true, made + 1) else rest

-- deliver: nothing is sent unless there are both a URL and a secret to sign with.
unfoldable pub deliver : Env → (ℕ → Option ℕ) → Bool × ℕ
unfolding attempt
deliver env answers =
    if is_set (notification_webhook_url env) && is_set (notification_signing_secret env)
    then attempt answers max_delivery_attempts 0
    else (false, 0)

abbrev pub is_pending : Notification → Bool
is_pending n = elim n.status [ NotificationStatus.pending ↦ true | _ ↦ false ]

-- The outcome of one delivery, written to its row.
unfoldable pub record_outcome : ℕ → Bool → Database → Database
record_outcome i success db = record db {
  notifications =
      modify (λ n. n.id == i)
        (λ n. record n {
          status = if success then sent else NotificationStatus.failed;
          attempts = n.attempts + 1;
        })
        db.notifications;
}

-- The second half of flush_pending: deliver each row in turn and record the outcome.
unfoldable pub flush_rows : Env → List Notification → ℕ → Database → ℕ × Database
unfolding deliver record_outcome
flush_rows env [] delivered db = (delivered, db)
flush_rows env (n ∷ rows) delivered db =
    let success = (deliver env (env.post n.id)).0 in
    flush_rows env rows (if success then delivered + 1 else delivered)
      (record_outcome n.id success db)

-- At most fifty pending rows, oldest first.
abbrev pub pending_rows : Database → List Notification
pending_rows db = take 50 (filter is_pending db.notifications)

unfoldable pub flush_pending : Env → Tx ℕ
unfolding flush_rows
flush_pending env db =
    let (delivered, db') = flush_rows env (pending_rows db) 0 db in
    if notifications_enabled env then (ok delivered, db') else (ok 0, db)
