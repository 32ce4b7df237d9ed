-- ===== src/Examples/Web.antt =====
-- The theorems on requests, sessions and logins at concrete inputs.
use patchline.Prelude.{
  ◌<◌, find, starts_with, any, ℕ, ◌+◌, ◌≡◌, ◌≤◌, refl, ◌↔◌, true, false, none, some, [], ◌∷◌, Text,
  text, same, length, All, if◌then◌else◌, arith,
}
use patchline.Models.{Database, empty, Session, Vendor}
use patchline.Tx.{when, ◌>>=◌, session_scope, ok}
use patchline.Env.{env_bool, demo_mode, Env}
use patchline.Security.Redirect.{safe_redirect_target, IsSafe, safe_redirect_target-IsSafe}
use patchline.Security.BranchNames.{validate_branch_names, IsBranchName, validate_branch_names_iff}
use patchline.Slugify.{slugify_title, IsSlug, slugify_title-IsSlug}
use patchline.Env.Ints.{pos, negsuc, int_of, env_int}
use patchline.Auth.{
  Draws, is_public_path, needs_step_up, activity_flush_seconds, step_up_age_seconds,
}
use patchline.Auth.Middleware.{
  session_middleware, goes_on, rejected, authorization_changed, bad_session, RequestState,
}
use patchline.Auth.Admission.{is_admitted, IsAllowed, session_middleware_iff}
use patchline.Auth.Freshness.{session_middleware_fresh}
use patchline.Auth.Revocation.{session_middleware_revoked}
use patchline.Auth.Login.{GithubUser, error_page, github_callback}
use patchline.Auth.Login.SingleUse.{github_callback_once}
use patchline.Cli.RevokeSessions.{cmd_revoke_sessions, cmd_revoke_sessions_refused}
use patchline.Examples.Fixtures.{quiet_env}

safe_redirect_target-IsSafe_example : IsSafe (safe_redirect_target (some (text "/jobs?page=2")))
safe_redirect_target-IsSafe_example = safe_redirect_target-IsSafe (some (text "/jobs?page=2"))

validate_branch_names_iff_example :
    (validate_branch_names (text "main" ∷ text " " ∷ []) ≡ [])
    ↔ ((length (text "main" ∷ text " " ∷ []) ≤ 10) × All IsBranchName (text "main" ∷ text " " ∷ []))
validate_branch_names_iff_example = validate_branch_names_iff (text "main" ∷ text " " ∷ [])

slugify_title-IsSlug_example :
    (length (slugify_title 50 (some (text " Drop --get_user-- v2! "))) ≤ 50)
    × IsSlug (slugify_title 50 (some (text " Drop --get_user-- v2! ")))
slugify_title-IsSlug_example = slugify_title-IsSlug 50 (some (text " Drop --get_user-- v2! "))

-- An environment that allows one login.
abbrev allows : Text → ℕ → Env
allows login now = record quiet_env {
  now = now;
  environ = λ name. if same name (text "GITHUB_ALLOWLISTED_LOGIN") then some login else none;
}

abbrev octo : Vendor
octo = record { id = 1; github_user_id = 77; github_login = text "octo" }

abbrev octo_session : Session
octo_session = record {
  id = 5;
  vendor_id = some 1;
  cookie_value = text "c00k1e";
  created_at = 90;
  last_activity_at = 100;
  expires_at = none;
  revoked_at = none;
  deleted_at = none;
  csrf_token = some (text "t0ken");
  oauth_state = some (text "st4te");
  is_demo = false;
}

abbrev octo_db : Database
octo_db = record empty { sessions = octo_session ∷ []; vendors = octo ∷ [] }

jobs_private : (now : ℕ) (login : Text) → is_public_path (allows login now) (text "/jobs") ≡ false
unfolding is_public_path any same starts_with text demo_mode env_bool
jobs_private now login = refl

session_middleware_iff_example :
    (is_admitted
        (session_middleware (allows (text "octo") 5000) (text "/jobs") (text "c00k1e") octo_db).0
      ≡ true)
    ↔ IsAllowed (allows (text "octo") 5000) (text "c00k1e") octo_db
session_middleware_iff_example =
    session_middleware_iff (allows (text "octo") 5000) (text "/jobs") (text "c00k1e") octo_db
      (jobs_private 5000 (text "octo"))

-- The vendor was away for more than an hour.
abbrev octo_state : RequestState
octo_state = record {
  session = some (record octo_session { last_activity_at = 5000 });
  vendor = some octo;
  csrf_token = some (text "t0ken");
}

octo_admitted :
    (session_middleware (allows (text "octo") 5000) (text "/jobs") (text "c00k1e") octo_db).0
    ≡ ok (goes_on octo_state)
unfolding session_middleware any same text starts_with session_scope ◌>>=◌ find when
octo_admitted = refl

default_age : step_up_age_seconds (allows (text "octo") 5001) ≡ pos 900
unfolding step_up_age_seconds env_int same text
default_age = refl

session_middleware_fresh_example :
    (s : Session) × (octo_state.session ≡ some s)
    × (5000 < s.last_activity_at + activity_flush_seconds)
    × (needs_step_up (allows (text "octo") 5001) octo_state.session ≡ false)
session_middleware_fresh_example =
    session_middleware_fresh (allows (text "octo") 5000) (allows (text "octo") 5001) (text "/jobs")
      (text "c00k1e") octo_db octo_state 900 (jobs_private 5000 (text "octo")) octo_admitted
      default_age (omega arith)

-- int() takes a sign and single underscores.
int_of_signed :
    (int_of (text "-5") ≡ some (negsuc 4))
    × (int_of (text "+60") ≡ some (pos 60))
    × (int_of (text "1_000") ≡ some (pos 1000))
    × (int_of (text "1__0") ≡ none)
    × (int_of (text "-") ≡ none)
unfolding int_of text
int_of_signed = (refl, refl, refl, refl, refl)

octo_rejected :
    (session_middleware (allows (text "mona") 5000) (text "/jobs") (text "c00k1e") octo_db).0
    ≡ ok (rejected authorization_changed)
unfolding session_middleware any same text starts_with session_scope ◌>>=◌ find
octo_rejected = refl

session_middleware_revoked_example :
    (session_middleware
      (allows (text "octo") 5001)
      (text "/jobs")
      (text "c00k1e")
      (session_middleware (allows (text "mona") 5000) (text "/jobs") (text "c00k1e") octo_db).1).0
    ≡ ok (rejected bad_session)
session_middleware_revoked_example =
    session_middleware_revoked (allows (text "mona") 5000) (allows (text "octo") 5001)
      (text "/jobs") (text "/jobs") (text "c00k1e") octo_db octo_rejected
      (jobs_private 5001 (text "octo"))

cmd_revoke_sessions_refused_example :
    (session_middleware
      (allows (text "octo") 5001)
      (text "/jobs")
      (text "c00k1e")
      (cmd_revoke_sessions 5000 octo_db).1).0
    ≡ ok (rejected bad_session)
cmd_revoke_sessions_refused_example =
    cmd_revoke_sessions_refused 5000 (allows (text "octo") 5001) (text "/jobs") (text "c00k1e")
      octo_db (jobs_private 5001 (text "octo"))

abbrev draws : Draws
draws = record { cookie = text "new"; state = text "next"; nonce = text "n0nce" }

abbrev user : GithubUser
user = record { login = some (text "octo"); id = some 77 }

github_callback_once_example :
    (let env = allows (text "octo") 5000 in
      let first =
        github_callback
          (λ k m. m)
          env
          draws
          (text "c00k1e")
          (text "st4te")
          (text "/jobs")
          []
          (some user)
          octo_db in
      github_callback
        (λ k m. m)
        env
        draws
        (text "c00k1e")
        (text "st4te")
        (text "/jobs")
        []
        (some user)
        first.1
      ≡ (ok (error_page 400), first.1))
github_callback_once_example =
    github_callback_once (λ k m. m) (allows (text "octo") 5000) (allows (text "octo") 5000) draws
      draws (text "c00k1e") (text "st4te") (text "/jobs") (text "/jobs") [] (some user) (some user)
      octo_db
