-- ===== src/Auth/Middleware.antt =====
-- SessionMiddleware of src/patchline/auth.py: which requests reach the pages.
use patchline.Prelude.{ℕ, Option, none, some, Text, same, if◌then◌else◌}
use patchline.Models.{Session, Vendor}
use patchline.Tx.{Tx, pure, gets, session_scope, ◌>>=◌, ◌>>◌}
use patchline.Env.{Env, demo_mode, allowlisted_login}
use patchline.Auth.{
  is_public_path, load_session_with_vendor, session_invalid_reason, revoke_session, touch_activity,
}

-- request.state
pub record RequestState : Type 0 where
  pub session : Option Session
  pub vendor : Option Vendor
  pub csrf_token : Option Text

pub data Rejection : Type 0 where
  bad_session misconfigured authorization_changed : Rejection

pub data Verdict : Type 0 where
  goes_on : RequestState → Verdict
  rejected : Rejection → Verdict

abbrev nobody : RequestState
nobody = record { session = none; vendor = none; csrf_token = none }

-- A public page sees a valid session, and nothing is refused.
unfoldable pub public_state : ℕ → Option Session → Option Vendor → RequestState
unfolding session_invalid_reason
public_state now session vendor = elim (session_invalid_reason now session) [
  | none ↦ record { session = session; vendor = vendor; csrf_token = none }
  | some reason ↦ nobody
]

unfoldable pub let_in : Env → Session → Vendor → Tx Verdict
unfolding touch_activity
let_in env session vendor = do
  session' ← touch_activity env.now session
  pure (
      goes_on (record {
        session = some session';
        vendor = some vendor;
        csrf_token = session'.csrf_token;
      }))

unfoldable pub check_login : Env → Session → Vendor → Option Text → Tx Verdict
unfolding let_in revoke_session
check_login env session vendor none = pure (rejected misconfigured)
check_login env session vendor (some allow) =
    if same vendor.github_login allow
    then let_in env session vendor
    else revoke_session env.now session >> pure (rejected authorization_changed)

unfoldable pub check_vendor : Env → Session → Vendor → Tx Verdict
unfolding check_login let_in demo_mode allowlisted_login
check_vendor env session vendor =
    if demo_mode env
    then let_in env session vendor
    else check_login env session vendor (allowlisted_login env)

unfoldable pub check_session : Env → Option Session → Option Vendor → Tx Verdict
unfolding check_vendor session_invalid_reason
check_session env none vendor = pure (rejected bad_session)
check_session env (some session) none = pure (rejected bad_session)
check_session env (some session) (some vendor) =
    elim (session_invalid_reason env.now (some session)) [
      | none ↦ check_vendor env session vendor
      | some reason ↦ pure (rejected bad_session)
    ]

unfoldable pub enforce : Env → Text → Tx Verdict
unfolding load_session_with_vendor check_session
enforce env cookie = do
  loaded ← gets (load_session_with_vendor cookie)
  check_session env loaded.0 loaded.1

unfoldable pub session_middleware : Env → Text → Text → Tx Verdict
unfolding is_public_path load_session_with_vendor public_state enforce
session_middleware env path cookie =
    if is_public_path env path
    then gets (λ db.
      let loaded = load_session_with_vendor cookie db in
      goes_on (public_state env.now loaded.0 loaded.1))
    else session_scope (enforce env cookie)
