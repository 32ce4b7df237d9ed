-- ===== src/Auth/Admission.antt =====
-- Who passes the middleware of src/patchline/auth.py.
use native.Mathlib.Omega.{arith}
use patchline.Prelude.{
  ℕ, ◌-◌, ◌≡◌, refl, sym, ap, inl, inr, ◌↔◌, ◌⊎◌, ◌∙◌, Bool, true, false, Option, none, some, Text,
  same, same_iff, if◌then◌else◌, leb, Bool-cases, Option-cases,
}
use patchline.Models.{Database, Session, Vendor}
use patchline.Tx.{Result, ok, pure, ◌>>=◌, when}
use patchline.Tx.Respects.{session_scope_result}
use patchline.Env.{Env, demo_mode, allowlisted_login}
use patchline.Auth.{
  is_public_path, load_session_with_vendor, session_invalid_reason, revoke_session, touch_activity,
  touched, change_session, activity_flush_seconds, Invalid,
}
use patchline.Auth.Middleware.{
  RequestState, Rejection, Verdict, goes_on, rejected, authorization_changed, bad_session,
  misconfigured, let_in, check_login, check_vendor, check_session, enforce, session_middleware,
}

abbrev pub is_admitted : Result Verdict → Bool
is_admitted (ok (goes_on state)) = true
is_admitted _ = false

-- The request has a valid session of a vendor whom the configuration allows at this moment.
pub IsAllowed : Env → Text → Database → Type 0
IsAllowed env cookie db =
    (s : Session) × (v : Vendor) × ((load_session_with_vendor cookie db).0 ≡ some s)
    × ((load_session_with_vendor cookie db).1 ≡ some v)
    × (session_invalid_reason env.now (some s) ≡ none)
    × ((demo_mode env ≡ true) ⊎ (allowlisted_login env ≡ some v.github_login))

-- The request's view of a session that was let in.
abbrev pub admitted_state : Env → Session → Vendor → RequestState
admitted_state env s v = record {
  session = some (touched env.now s);
  vendor = some v;
  csrf_token = (touched env.now s).csrf_token;
}

touch_activity_lem :
    (now : ℕ) (s : Session) (db : Database) → (touch_activity now s db).0 ≡ ok (touched now s)
unfolding touch_activity when ◌>>=◌ change_session
touch_activity_lem now s db =
    elim (Bool-cases (leb activity_flush_seconds (now - s.last_activity_at))) [
      | inl e ↦ rw e refl
      | inr e ↦ rw e refl
    ]

check_login-none :
    (env : Env) (s : Session) (v : Vendor) (db : Database)
    → (check_login env s v none db).0 ≡ ok (rejected misconfigured)
unfolding check_login pure
check_login-none env s v db = refl

pub let_in_lem :
    (env : Env) (s : Session) (v : Vendor) (db : Database)
    → (let_in env s v db).0 ≡ ok (goes_on (admitted_state env s v))
unfolding let_in ◌>>=◌
let_in_lem env s v db = rw (touch_activity_lem env.now s db) refl

-- The answer for a session that is valid, and for what was found under a cookie.
unfoldable pub judge_login : Bool → Option Text → Text → Option Rejection
judge_login true allow login = none
judge_login false none login = some misconfigured
judge_login false (some allow) login = if same login allow then none else some authorization_changed

unfoldable pub judge_age : Option Invalid → Bool → Option Text → Text → Option Rejection
unfolding judge_login
judge_age (some reason) demo allow login = some bad_session
judge_age none demo allow login = judge_login demo allow login

unfoldable pub judge_session : Env → Option Session → Option Vendor → Option Rejection
unfolding judge_age
judge_session env (some s) (some v) =
    judge_age (session_invalid_reason env.now (some s)) (demo_mode env) (allowlisted_login env)
      v.github_login
judge_session env _ _ = some bad_session

unfoldable pub answer : Env → Option Rejection → Option Session → Option Vendor → Verdict
answer env (some r) session vendor = rejected r
answer env none (some s) (some v) = goes_on (admitted_state env s v)
answer env none _ _ = rejected bad_session

check_login-some :
    (env : Env) (s : Session) (v : Vendor) (allow : Text) (db : Database)
    → (check_login env s v (some allow) db).0
      ≡ ok (
          answer env
            (if same v.github_login allow then none else some authorization_changed)
            (some s)
            (some v))
unfolding answer check_login ◌>>=◌ revoke_session change_session
check_login-some env s v allow db = elim (Bool-cases (same v.github_login allow)) [
  | inl e ↦ rw e (let_in_lem env s v db)
  | inr e ↦ rw e refl
]

check_vendor_lem :
    (env : Env) (s : Session) (v : Vendor) (db : Database)
    → (check_vendor env s v db).0
      ≡ ok (
          answer env
            (judge_login (demo_mode env) (allowlisted_login env) v.github_login)
            (some s)
            (some v))
unfolding check_vendor judge_login answer
check_vendor_lem env s v db = go (demo_mode env) (allowlisted_login env)
  where
    go :
        (demo : Bool) (allow : Option Text)
        → ((if demo then let_in env s v else check_login env s v allow) db).0
          ≡ ok (answer env (judge_login demo allow v.github_login) (some s) (some v))
    go true allow = let_in_lem env s v db
    go false none = check_login-none env s v db
    go false (some allow) = check_login-some env s v allow db

check_session_lem :
    (env : Env) (session : Option Session) (vendor : Option Vendor) (db : Database)
    → (check_session env session vendor db).0
      ≡ ok (answer env (judge_session env session vendor) session vendor)
unfolding check_session judge_session answer pure
check_session_lem env none vendor db = refl
check_session_lem env (some s) none db = refl
check_session_lem env (some s) (some v) db =
    elim (Option-cases (session_invalid_reason env.now (some s))) [
      | inl e ↦ rw (e, check_session, judge_session) (check_vendor_lem env s v db)
      | inr k ↦ rw (k.1, check_session, judge_session) refl
    ]

enforce_lem :
    (env : Env) (cookie : Text) (db : Database)
    → let loaded = load_session_with_vendor cookie db in
      (enforce env cookie db).0
      ≡ ok (answer env (judge_session env loaded.0 loaded.1) loaded.0 loaded.1)
unfolding enforce ◌>>=◌
enforce_lem env cookie db =
    check_session_lem env (load_session_with_vendor cookie db).0
      (load_session_with_vendor cookie db).1 db

pub session_middleware_lem :
    (env : Env) (path cookie : Text) (db : Database)
    → is_public_path env path ≡ false
    → let loaded = load_session_with_vendor cookie db in
      (session_middleware env path cookie db).0
      ≡ ok (answer env (judge_session env loaded.0 loaded.1) loaded.0 loaded.1)
unfolding session_middleware
session_middleware_lem env path cookie db private =
    rw private (session_scope_result (enforce env cookie) db ∙ enforce_lem env cookie db)

judge_login_iff :
    (demo : Bool) (allow : Option Text) (name : Text)
    → (judge_login demo allow name ≡ none) ↔ ((demo ≡ true) ⊎ (allow ≡ some name))
unfolding judge_login
judge_login_iff true allow name = (λ _. inl refl, λ _. refl)
judge_login_iff false none name = grind arith
judge_login_iff false (some allow) name = let k = same_iff name allow in grind arith

judge_age_iff :
    (reason : Option Invalid) (demo : Bool) (allow : Option Text) (name : Text)
    → (judge_age reason demo allow name ≡ none)
      ↔ ((reason ≡ none) × ((demo ≡ true) ⊎ (allow ≡ some name)))
unfolding judge_age
judge_age_iff none demo allow name =
    let k = judge_login_iff demo allow name in (λ h. (refl, k.0 h), λ h. k.1 h.1)
judge_age_iff (some r) demo allow name = grind arith

-- Who is let in, for the answer to the session and the vendor that were found.
admitted_iff :
    (env : Env) (s : Session) (v : Vendor) (r : Option Rejection)
    → (is_admitted (ok (answer env r (some s) (some v))) ≡ true) ↔ (r ≡ none)
unfolding answer
admitted_iff env s v none = (λ h. refl, λ h. refl)
admitted_iff env s v (some r) = grind arith

same_login :
    (demo : Bool) (allow : Option Text) {v w : Vendor}
    → some v ≡ some w
    → ((demo ≡ true) ⊎ (allow ≡ some w.github_login))
    → (demo ≡ true) ⊎ (allow ≡ some v.github_login)
same_login demo allow e (inl d) = inl d
same_login demo allow {v} {w} e (inr a) =
    inr (a ∙ sym (ap (λ o. elim o [ none ↦ none | some x ↦ some x.github_login ]) e))

pub judge_session_iff :
    (env : Env) (db : Database) (loaded : Option Session × Option Vendor)
    → (is_admitted (ok (answer env (judge_session env loaded.0 loaded.1) loaded.0 loaded.1)) ≡ true)
      ↔ ((s : Session) × (v : Vendor) × (loaded.0 ≡ some s)
          × (loaded.1 ≡ some v)
          × (session_invalid_reason env.now (some s) ≡ none)
          × ((demo_mode env ≡ true) ⊎ (allowlisted_login env ≡ some v.github_login)))
unfolding judge_session answer
judge_session_iff env db (none, vendor) = (λ h. cc, λ h. let e : none ≡ some h.0 = h.2 in cc)
judge_session_iff env db (some s, none) = (λ h. cc, λ h. let e : none ≡ some h.1 = h.3 in cc)
judge_session_iff env db (some s, some v) = (
  λ h.
      let k = (judge_age_iff _ _ _ _).0 ((admitted_iff env s v _).0 h) in
      (s, v, refl, refl, k.0, k.1),
  λ h. (admitted_iff env s v _).1 (
      (judge_age_iff _ _ _ _).1 (
        ap (session_invalid_reason env.now) h.2 ∙ h.4,
        same_login (demo_mode env) (allowlisted_login env) h.3 h.5,
      )),
)

-- Outside the public paths, a request is let in exactly when its cookie finds a session
-- with a vendor, the session is valid now, and the configuration, as it is now, is in demo mode or allows
-- just this vendor.
pub session_middleware_iff :
    (env : Env) (path cookie : Text) (db : Database)
    → is_public_path env path ≡ false
    → (is_admitted (session_middleware env path cookie db).0 ≡ true) ↔ IsAllowed env cookie db
unfolding IsAllowed
session_middleware_iff env path cookie db private =
    rw (session_middleware_lem env path cookie db private)
      (judge_session_iff env db (load_session_with_vendor cookie db))
