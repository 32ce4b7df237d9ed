-- ===== src/Sound/Login.antt =====
-- Sessions and logins do not touch the board, except for the seeding of the demo.
use patchline.Prelude.{ℕ, Bool, Option, none, some, List, [], ◌∷◌, Text}
use patchline.Models.{Session, Vendor}
use patchline.Tx.{pure}
use patchline.Tx.Respects.{Respects}
use patchline.Env.{Env}
use patchline.Security.{Hmac}
use patchline.Coverage.Sound.{KeepsSound, sound_rules}
use patchline.Sync.Installations.{GithubInstallation}
use patchline.Sync.Reconcile.{recheck_installations-IsSound}
use patchline.Auth.{
  Draws, change_session, add_session, mint_csrf, ensure_csrf, create_preauth_session,
  create_vendor_session, revoke_session, touch_activity, session_invalid_reason,
}
use patchline.Auth.Middleware.{
  rejected, bad_session, let_in, check_login, check_vendor, check_session, enforce,
  session_middleware,
}
use patchline.Auth.Login.{
  GithubUser, add_vendor, ensure_vendor, seed_board, demo_login, demo_entry, login, renew_session,
  preauth_session, login_start, spend_state, consume_state, sign_in, complete_login, finish_login,
  check_state, github_callback, end_session, logout,
}

change_session-IsSound :
    (c : Text) (f : Session → Session) → Respects KeepsSound (change_session c f)
unfolding change_session
change_session-IsSound c f = search sound_rules

add_session-IsSound : (s : Session) → Respects KeepsSound (add_session s)
unfolding add_session
add_session-IsSound s = search sound_rules

let_in-IsSound : (env : Env) (s : Session) (v : Vendor) → Respects KeepsSound (let_in env s v)
unfolding let_in touch_activity
let_in-IsSound env s v = search (sound_rules, change_session-IsSound) depth 9

check_login-IsSound :
    (env : Env) (s : Session) (v : Vendor) (allow : Option Text)
    → Respects KeepsSound (check_login env s v allow)
unfolding check_login revoke_session
check_login-IsSound env s v none = search sound_rules
check_login-IsSound env s v (some allow) =
    search (sound_rules, let_in-IsSound, change_session-IsSound)

check_vendor-IsSound :
    (env : Env) (s : Session) (v : Vendor) → Respects KeepsSound (check_vendor env s v)
unfolding check_vendor
check_vendor-IsSound env s v = search (sound_rules, let_in-IsSound, check_login-IsSound)

check_session-IsSound :
    (env : Env) (s : Option Session) (v : Option Vendor)
    → Respects KeepsSound (check_session env s v)
unfolding check_session
check_session-IsSound env none v = search sound_rules
check_session-IsSound env (some s) none = search sound_rules
check_session-IsSound env (some s) (some v) =
    elim (session_invalid_reason env.now (some s))
      as (λ r.
        Respects KeepsSound
          (elim r [ none ↦ check_vendor env s v | some reason ↦ pure (rejected bad_session) ])) [
            | none ↦ check_vendor-IsSound env s v
            | some r ↦ search sound_rules
          ]

pub session_middleware-IsSound :
    (env : Env) (path cookie : Text) → Respects KeepsSound (session_middleware env path cookie)
unfolding session_middleware enforce
session_middleware-IsSound env path cookie = search (sound_rules, check_session-IsSound) depth 9

mint_csrf-IsSound :
    (hmac : Hmac) (env : Env) (draws : Draws) (s : Session) (t : Option Text)
    → Respects KeepsSound (mint_csrf hmac env draws s t)
unfolding mint_csrf
mint_csrf-IsSound hmac env draws s none = search (sound_rules, change_session-IsSound)
mint_csrf-IsSound hmac env draws s (some []) = search (sound_rules, change_session-IsSound)
mint_csrf-IsSound hmac env draws s (some (c ∷ t)) = search sound_rules

create_vendor_session-IsSound :
    (hmac : Hmac) (env : Env) (draws : Draws) (v : ℕ) (demo : Bool)
    → Respects KeepsSound (create_vendor_session hmac env draws v demo)
unfolding create_vendor_session ensure_csrf
create_vendor_session-IsSound hmac env draws v demo =
    search (sound_rules, add_session-IsSound, mint_csrf-IsSound) depth 9

add_vendor-IsSound :
    (i : ℕ) (name : Text) (v : Option Vendor) → Respects KeepsSound (add_vendor i name v)
add_vendor-IsSound i name none = search sound_rules
add_vendor-IsSound i name (some v) = search sound_rules

ensure_vendor-IsSound : (i : ℕ) (name : Text) → Respects KeepsSound (ensure_vendor i name)
unfolding ensure_vendor
ensure_vendor-IsSound i name = search (sound_rules, add_vendor-IsSound)

seed_board-IsSound : (gs : Option (List GithubInstallation)) → Respects KeepsSound (seed_board gs)
unfolding seed_board
seed_board-IsSound none = search sound_rules
seed_board-IsSound (some gs) = search (sound_rules, recheck_installations-IsSound)

demo_login-IsSound :
    (hmac : Hmac) (env : Env) (draws : Draws) (gs : Option (List GithubInstallation))
    → Respects KeepsSound (demo_login hmac env draws gs)
unfolding demo_login
demo_login-IsSound hmac env draws gs =
    search (sound_rules, ensure_vendor-IsSound, create_vendor_session-IsSound, seed_board-IsSound)
      depth 9

pub demo_entry-IsSound :
    (hmac : Hmac) (env : Env) (draws : Draws) (gs : Option (List GithubInstallation))
    → Respects KeepsSound (demo_entry hmac env draws gs)
unfolding demo_entry
demo_entry-IsSound hmac env draws gs = search (sound_rules, demo_login-IsSound)

pub login-IsSound :
    (hmac : Hmac) (env : Env) (draws : Draws) (gs : Option (List GithubInstallation)) (to : Text)
    → Respects KeepsSound (login hmac env draws gs to)
unfolding login
login-IsSound hmac env draws gs to = search (sound_rules, demo_login-IsSound)

renew_session-IsSound :
    (env : Env) (draws : Draws) (s : Session) (v : Option ℕ)
    → Respects KeepsSound (renew_session env draws s v)
unfolding renew_session create_preauth_session
renew_session-IsSound env draws s none = search (sound_rules, change_session-IsSound)
renew_session-IsSound env draws s (some v) = search (sound_rules, add_session-IsSound)

preauth_session-IsSound :
    (env : Env) (draws : Draws) (s : Option Session)
    → Respects KeepsSound (preauth_session env draws s)
unfolding preauth_session create_preauth_session
preauth_session-IsSound env draws none = search (sound_rules, add_session-IsSound)
preauth_session-IsSound env draws (some s) = renew_session-IsSound env draws s s.vendor_id

pub login_start-IsSound :
    (hmac : Hmac) (env : Env) (draws : Draws) (gs : Option (List GithubInstallation))
    (to cookie : Text)
    → Respects KeepsSound (login_start hmac env draws gs to cookie)
unfolding login_start
login_start-IsSound hmac env draws gs to cookie =
    search (sound_rules, demo_login-IsSound, preauth_session-IsSound) depth 9

spend_state-IsSound :
    (state : Text) (s : Option Session) → Respects KeepsSound (spend_state state s)
unfolding spend_state
spend_state-IsSound state none = search sound_rules
spend_state-IsSound state (some s) = search (sound_rules, change_session-IsSound)

sign_in-IsSound :
    (hmac : Hmac) (env : Env) (draws : Draws) (v : ℕ) (s : Option Session)
    → Respects KeepsSound (sign_in hmac env draws v s)
unfolding sign_in ensure_csrf
sign_in-IsSound hmac env draws v none = search sound_rules
sign_in-IsSound hmac env draws v (some s) =
    search (sound_rules, change_session-IsSound, mint_csrf-IsSound)

complete_login-IsSound :
    (hmac : Hmac) (env : Env) (draws : Draws) (cookie name : Text) (user : GithubUser)
    → Respects KeepsSound (complete_login hmac env draws cookie name user)
unfolding complete_login
complete_login-IsSound hmac env draws cookie name user =
    search (sound_rules, ensure_vendor-IsSound, sign_in-IsSound) depth 9

finish_login-IsSound :
    (hmac : Hmac) (env : Env) (draws : Draws) (cookie target : Text) (user : Option GithubUser)
    → Respects KeepsSound (finish_login hmac env draws cookie target user)
unfolding finish_login
finish_login-IsSound hmac env draws cookie target none = search sound_rules
finish_login-IsSound hmac env draws cookie target (some user) =
    search (sound_rules, complete_login-IsSound)

pub github_callback-IsSound :
    (hmac : Hmac) (env : Env) (draws : Draws) (cookie state to error : Text)
    (user : Option GithubUser)
    → Respects KeepsSound (github_callback hmac env draws cookie state to error user)
unfolding github_callback check_state consume_state
github_callback-IsSound hmac env draws cookie state to (c ∷ error) user = search sound_rules
github_callback-IsSound hmac env draws cookie state to [] user =
    search (sound_rules, spend_state-IsSound, finish_login-IsSound) depth 9

end_session-IsSound : (env : Env) (s : Option Session) → Respects KeepsSound (end_session env s)
unfolding end_session revoke_session
end_session-IsSound env none = search sound_rules
end_session-IsSound env (some s) = search (sound_rules, change_session-IsSound)

pub logout-IsSound : (env : Env) (cookie : Text) → Respects KeepsSound (logout env cookie)
unfolding logout
logout-IsSound env cookie = search (sound_rules, end_session-IsSound) depth 9
