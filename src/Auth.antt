-- ===== src/Auth.antt =====
-- Sessions of src/patchline/auth.py: how they are made and found, when they are valid, and how old their
-- last activity may be. Random tokens are arguments; a session row is found by its unique cookie.
pub mod Middleware
pub mod Admission
pub mod Freshness
pub mod Revocation
pub mod Login
use patchline.Prelude.{
  zero, ◌+◌, ℕ, suc, ◌-◌, ◌*◌, Bool, true, false, not, ◌&&◌, ◌||◌, Option, none, some, List, [],
  ◌∷◌, ◌++◌, Text, text, same, leb, ltb, any, all, find, strip, starts_with, is_empty,
  if◌then◌else◌, or_else, or_blank, count_if,
}
use patchline.Models.{Database, Session, Vendor, session_table, vendor_table}
use patchline.Query.{get, modify, modify_all, next_id}
use patchline.Tx.{Tx, pure, gets, change, ◌>>=◌, ◌>>◌, when}
use patchline.Env.{Env, demo_mode}
use patchline.Security.{Hmac, generate_csrf_token}
use patchline.Env.Ints.{ℤ, pos, env_int, or_int, is_past_age}

abbrev pub idle_timeout : ℕ
idle_timeout = 7 * 86400

abbrev pub demo_absolute : ℕ
demo_absolute = 24 * 3600

abbrev pub activity_flush_seconds : ℕ
activity_flush_seconds = 60

abbrev pub public_paths : List Text
public_paths =
    text "/login"
    ∷ text "/login/start"
    ∷ text "/logout"
    ∷ text "/auth/github/callback"
    ∷ text "/healthz"
    ∷ text "/webhooks/github"
    ∷ []

unfoldable pub is_public_path : Env → Text → Bool
unfolding demo_mode
is_public_path env path =
    any (same path) public_paths
    || starts_with (text "/static") path
    || (same path (text "/demo") && demo_mode env)

-- What `new_token` and the nonce of a CSRF token draw.
pub record Draws : Type 0 where
  pub cookie : Text
  pub state : Text
  pub nonce : Text

abbrev pub has_cookie : Text → Session → Bool
has_cookie cookie row =
    same row.cookie_value cookie && (elim row.deleted_at [ none ↦ true | some t ↦ false ])

abbrev blank_session : ℕ → ℕ → Draws → Session
blank_session i now draws = record {
  id = i;
  vendor_id = none;
  cookie_value = draws.cookie;
  created_at = now;
  last_activity_at = now;
  expires_at = none;
  revoked_at = none;
  deleted_at = none;
  csrf_token = none;
  oauth_state = none;
  is_demo = false;
}

unfoldable pub add_session : Session → Tx (Unit {0})
add_session row = change (λ db. record db { sessions = db.sessions ++ row ∷ [] })

-- The row object of a session is changed.
unfoldable pub change_session : Text → (Session → Session) → Tx (Unit {0})
change_session cookie f =
    change (λ db. record db { sessions = modify (has_cookie cookie) f db.sessions })

unfoldable pub create_preauth_session : Env → Draws → Tx Session
unfolding add_session
create_preauth_session env draws = do
  i ← gets (λ db. next_id db.sessions)
  add_session (record (blank_session i env.now draws) { oauth_state = some draws.state })
  pure (record (blank_session i env.now draws) { oauth_state = some draws.state })

-- config.session_secret() or "patchline-dev"
unfoldable pub session_secret : Env → Text
session_secret env = or_else (or_blank (env.environ (text "SESSION_SECRET"))) (text "patchline-dev")

unfoldable pub mint_csrf : Hmac → Env → Draws → Session → Option Text → Tx Text
unfolding session_secret generate_csrf_token change_session
mint_csrf hmac env draws session (some (c ∷ token)) = pure (c ∷ token)
mint_csrf hmac env draws session _ = do
  let token = generate_csrf_token hmac (session_secret env) session.cookie_value draws.nonce
  change_session session.cookie_value (λ s. record s { csrf_token = some token })
  pure token

-- The token of a session, which is made when it has none.
unfoldable pub ensure_csrf : Hmac → Env → Draws → Session → Tx Text
unfolding mint_csrf
ensure_csrf hmac env draws session = mint_csrf hmac env draws session session.csrf_token

unfoldable pub create_vendor_session : Hmac → Env → Draws → ℕ → Bool → Tx Text
unfolding add_session ensure_csrf
create_vendor_session hmac env draws vendor_id demo = do
  i ← gets (λ db. next_id db.sessions)
  let row = record (blank_session i env.now draws) {
    vendor_id = some vendor_id;
    is_demo = demo;
    expires_at = if demo then some (env.now + demo_absolute) else none;
  }
  add_session row
  ensure_csrf hmac env draws row
  pure draws.cookie

abbrev vendor_of : Session → Database → Option Vendor
vendor_of session db = elim session.vendor_id [ some (suc i) ↦ get (suc i) db.vendors | _ ↦ none ]

-- The session of a cookie, and its vendor.
unfoldable pub load_session : Text → Database → Option Session
load_session [] db = none
load_session (c ∷ cookie) db = find (has_cookie (c ∷ cookie)) db.sessions

unfoldable pub session_vendor : Option Session → Database → Option Vendor
unfolding get
session_vendor none db = none
session_vendor (some session) db = vendor_of session db

unfoldable pub load_session_with_vendor : Text → Database → Option Session × Option Vendor
unfolding load_session session_vendor
load_session_with_vendor cookie db =
    let session = load_session cookie db in (session, session_vendor session db)

pub data Invalid : Type 0 where
  no_session revoked demo_expired expired idle : Invalid

abbrev pub is_past : ℕ → Option ℕ → Bool
is_past now none = false
is_past now (some t) = leb t now

unfoldable pub invalid_by_age : ℕ → Session → Option Invalid
invalid_by_age now s =
    if s.is_demo
    then (if ltb demo_absolute (now - s.created_at) then some demo_expired else none)
    else (if is_past now s.expires_at
        then some expired
        else (if ltb idle_timeout (now - s.last_activity_at) then some idle else none))

unfoldable pub session_invalid_reason : ℕ → Option Session → Option Invalid
unfolding invalid_by_age
session_invalid_reason now none = some no_session
session_invalid_reason now (some s) = elim s.revoked_at [
  | none ↦ invalid_by_age now s
  | some t ↦ some revoked
]

unfoldable pub step_up_age_seconds : Env → ℤ
unfolding env_int
step_up_age_seconds env =
    or_int (env_int env (text "SESSION_STEP_UP_AGE_SECONDS") (pos 900)) (pos 900)

unfoldable pub needs_step_up : Env → Option Session → Bool
unfolding step_up_age_seconds demo_mode is_past_age
needs_step_up env none = true
needs_step_up env (some s) =
    if s.is_demo || demo_mode env
    then false
    else is_past_age env.now s.last_activity_at (step_up_age_seconds env)

unfoldable pub revoke_session : ℕ → Session → Tx (Unit {0})
unfolding change_session
revoke_session now session =
    change_session session.cookie_value (λ s. record s { revoked_at = some now })

abbrev pub is_unrevoked : Session → Bool
is_unrevoked s = elim s.revoked_at [ none ↦ true | some t ↦ false ]

unfoldable pub revoke_all_sessions : ℕ → Tx ℕ
unfolding modify_all count_if
revoke_all_sessions now = do
  count ← gets (λ db. count_if is_unrevoked db.sessions)
  change (λ db. record db {
    sessions = modify_all is_unrevoked (λ s. record s { revoked_at = some now }) db.sessions;
  })
  pure count

-- The session as it is behind `touch_activity`: at most one write in sixty seconds.
unfoldable pub touched : ℕ → Session → Session
touched now s =
    if leb activity_flush_seconds (now - s.last_activity_at)
    then record s { last_activity_at = now }
    else s

unfoldable pub touch_activity : ℕ → Session → Tx Session
unfolding change_session touched
touch_activity now session = do
  when (leb activity_flush_seconds (now - session.last_activity_at))
      (change_session session.cookie_value (λ s. record s { last_activity_at = now }))
  pure (touched now session)
