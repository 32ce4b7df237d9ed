-- ===== src/Auth/Login.antt =====
-- Sign-in and sign-out of src/patchline/routes/auth.py. The exchange with GitHub gives a user, or raises.
pub mod SingleUse
use patchline.Prelude.{
  ℕ, suc, Bool, true, false, Option, none, some, List, [], ◌∷◌, ◌++◌, Text, text, same, find,
  if◌then◌else◌, or_blank,
}
use patchline.Models.{Database, Session, Vendor, vendor_table}
use patchline.Query.{next_id}
use patchline.Tx.{Tx, pure, raise, gets, change, session_scope, catch, attribute_error, ◌>>=◌, ◌>>◌}
use patchline.Env.{Env, demo_mode, allowlisted_login}
use patchline.Security.{Hmac}
use patchline.Security.Redirect.{safe_redirect_target}
use patchline.Sync.Installations.{GithubInstallation, recheck_installations}
use patchline.Auth.{
  Draws, load_session, create_preauth_session, create_vendor_session, change_session, ensure_csrf,
  revoke_session,
}

pub data Reply : Type 0 where
  -- to the path, with the cookie set
  signed_in : Text → Text → Reply
  redirect : Text → Reply
  -- to GitHub, with the state, the target behind the login, and the cookie that is set
  authorize : Text → Text → Text → Reply
  -- the login page, with the target that it passes on
  login_page : Text → Reply
  error_page : ℕ → Reply

abbrev has_login : Text → Vendor → Bool
has_login login v = same v.github_login login

abbrev pub add_vendor : ℕ → Text → Option Vendor → Tx ℕ
add_vendor github_id login (some v) = pure v.id
add_vendor github_id login none = do
  i ← gets (λ db. next_id db.vendors)
  change (λ db. record db {
    vendors =
        db.vendors ++ record { id = i; github_user_id = github_id; github_login = login } ∷ [];
  })
  pure i

-- The vendor of a login, who is added when missing.
unfoldable pub ensure_vendor : ℕ → Text → Tx ℕ
ensure_vendor github_id login = do
  v ← gets (λ db. find (has_login login) db.vendors)
  add_vendor github_id login v

unfoldable pub seed_board : Option (List GithubInstallation) → Tx (Unit {0})
unfolding recheck_installations
seed_board none = pure tt
seed_board (some gs) = catch (recheck_installations gs >> pure tt) (λ e. pure tt)

-- _demo_login. `gs` is what GitHub's fixtures list.
unfoldable pub demo_login : Hmac → Env → Draws → Option (List GithubInstallation) → Tx Reply
unfolding ensure_vendor create_vendor_session seed_board
demo_login hmac env draws gs = do
  cookie ← session_scope (do
    vendor ← ensure_vendor 0 (text "demo-vendor")
    create_vendor_session hmac env draws vendor true)
  seed_board gs
  pure (signed_in (text "/") cookie)

unfoldable pub demo_entry : Hmac → Env → Draws → Option (List GithubInstallation) → Tx Reply
unfolding demo_mode demo_login
demo_entry hmac env draws gs =
    if demo_mode env then demo_login hmac env draws gs else pure (redirect (text "/login"))

unfoldable pub login : Hmac → Env → Draws → Option (List GithubInstallation) → Text → Tx Reply
unfolding demo_mode demo_login safe_redirect_target
login hmac env draws gs redirect_to =
    if demo_mode env
    then demo_login hmac env draws gs
    else pure (login_page (safe_redirect_target (some redirect_to)))

-- A session without a vendor is used again, with a new state.
unfoldable pub renew_session : Env → Draws → Session → Option ℕ → Tx Session
unfolding create_preauth_session change_session
renew_session env draws session (some vendor) = create_preauth_session env draws
renew_session env draws session none = do
  change_session session.cookie_value (λ s. record s { oauth_state = some draws.state })
  pure (record session { oauth_state = some draws.state })

unfoldable pub preauth_session : Env → Draws → Option Session → Tx Session
unfolding create_preauth_session renew_session
preauth_session env draws none = create_preauth_session env draws
preauth_session env draws (some session) = renew_session env draws session session.vendor_id

unfoldable pub login_start :
    Hmac → Env → Draws → Option (List GithubInstallation) → Text → Text → Tx Reply
unfolding demo_mode demo_login safe_redirect_target load_session preauth_session
login_start hmac env draws gs redirect_to cookie =
    if demo_mode env then demo_login hmac env draws gs else (do
      session ← session_scope (do old ← gets (load_session cookie); preauth_session env draws old)
      pure (
          authorize (or_blank session.oauth_state) (safe_redirect_target (some redirect_to))
            session.cookie_value))

-- What GitHub says of the user.
pub record GithubUser : Type 0 where
  pub login : Option Text
  pub id : Option ℕ

abbrev number_of : Option ℕ → ℕ
number_of none = 0
number_of (some n) = n

abbrev stored_state : Option Session → Text
stored_state none = []
stored_state (some session) = or_blank session.oauth_state

unfoldable pub state_matches : Text → Option Session → Bool
unfolding same
state_matches [] session = false
state_matches (c ∷ state) session = same (c ∷ state) (stored_state session)

unfoldable pub spend_state : Text → Option Session → Tx Bool
unfolding change_session
spend_state state none = pure false
spend_state state (some session) =
    if state_matches state (some session)
    then change_session session.cookie_value (λ s. record s { oauth_state = none }) >> pure true
    else pure false

-- The first transaction of the callback: the state is deleted before anything else is done.
unfoldable pub consume_state : Text → Text → Tx Bool
unfolding load_session state_matches change_session spend_state
consume_state cookie state =
    session_scope (do session ← gets (load_session cookie); spend_state state session)

abbrev bind_vendor : ℕ → ℕ → Session → Session
bind_vendor now vendor s = record s {
  vendor_id = some vendor;
  last_activity_at = now;
  is_demo = false;
  csrf_token = none;
}

unfoldable pub sign_in : Hmac → Env → Draws → ℕ → Option Session → Tx (Unit {0})
unfolding change_session ensure_csrf
sign_in hmac env draws vendor none = raise attribute_error
sign_in hmac env draws vendor (some session) = do
  change_session session.cookie_value (bind_vendor env.now vendor)
  ensure_csrf hmac env draws (bind_vendor env.now vendor session)
  pure tt

unfoldable pub complete_login : Hmac → Env → Draws → Text → Text → GithubUser → Tx (Unit {0})
unfolding ensure_vendor load_session sign_in
complete_login hmac env draws cookie name user = session_scope (do
  vendor ← ensure_vendor (number_of user.id) name
  session ← gets (load_session cookie)
  sign_in hmac env draws vendor session)

abbrev is_allowlisted : Option Text → Text → Bool
is_allowlisted none name = false
is_allowlisted (some allow) name = same name allow

unfoldable pub finish_login : Hmac → Env → Draws → Text → Text → Option GithubUser → Tx Reply
unfolding allowlisted_login complete_login
finish_login hmac env draws cookie target none = pure (error_page 400)
finish_login hmac env draws cookie target (some user) =
    if is_allowlisted (allowlisted_login env) (or_blank user.login)
    then complete_login hmac env draws cookie (or_blank user.login) user >> pure (redirect target)
    else pure (error_page 403)

unfoldable pub check_state : Hmac → Env → Draws → Text → Text → Text → Option GithubUser → Tx Reply
unfolding consume_state finish_login safe_redirect_target
check_state hmac env draws cookie state redirect_to user = do
  matched ← consume_state cookie state
  if matched
      then finish_login hmac env draws cookie (safe_redirect_target (some redirect_to)) user
      else pure (error_page 400)

unfoldable pub github_callback :
    Hmac → Env → Draws → Text → Text → Text → Text → Option GithubUser → Tx Reply
unfolding check_state
github_callback hmac env draws cookie state redirect_to (c ∷ error) user = pure (error_page 400)
github_callback hmac env draws cookie state redirect_to [] user =
    check_state hmac env draws cookie state redirect_to user

unfoldable pub end_session : Env → Option Session → Tx (Unit {0})
unfolding revoke_session
end_session env none = pure tt
end_session env (some session) = revoke_session env.now session

unfoldable pub logout : Env → Text → Tx Reply
unfolding load_session end_session
logout env cookie = do
  session_scope (do session ← gets (load_session cookie); end_session env session)
  pure (redirect (text "/login"))
