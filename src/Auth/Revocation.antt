-- ===== src/Auth/Revocation.antt =====
-- What the middleware's revocation of a session means for the next requests with its cookie.
use native.Mathlib.Omega.{arith}
use patchline.Prelude.{
  ℕ, ◌≡◌, refl, sym, ap, ◌∙◌, Bool, true, false, Option, none, some, [], ◌∷◌, Text, same, same_iff,
  if◌then◌else◌, find, find_sound,
}
use mathlib.Core.Option
use patchline.Models.{Database, Session, Vendor}
use patchline.Query.{modify, find-modify_self}
use patchline.Tx.{session_scope, ok, Tx, pure, gets, change, ◌>>=◌, ◌>>◌}
use patchline.Tx.Respects.{session_scope_commits, session_scope_result}
use patchline.Env.{Env, demo_mode, allowlisted_login}
use patchline.Auth.{
  Invalid, is_public_path, load_session_with_vendor, load_session, has_cookie, change_session,
  revoke_session, session_invalid_reason, session_vendor,
}
use patchline.Auth.Freshness.{ok_inj}
use patchline.Auth.Middleware.{
  public_state, Verdict, goes_on, rejected, bad_session, authorization_changed, check_login,
  check_vendor, check_session, enforce, session_middleware, let_in,
}
use patchline.Auth.Admission.{answer, judge_session, judge_age, session_middleware_lem, let_in_lem}

-- A change of the row that a cookie finds is what the cookie finds afterwards.
pub load_session-change :
    (cookie : Text) (f : Session → Session) (db : Database) {s : Session}
    → ((r : Session) → has_cookie cookie r ≡ true → has_cookie cookie (f r) ≡ true)
    → load_session cookie db ≡ some s
    → load_session cookie (change_session s.cookie_value f db).1 ≡ some (f s)
unfolding load_session change_session change
load_session-change [] f db keep h = cc
load_session-change (c ∷ cookie) f db {s} keep h =
    let mine : s.cookie_value ≡ c ∷ cookie =
      cookie_of (find_sound (has_cookie (c ∷ cookie)) db.sessions h) in
    ap (λ k. find (has_cookie (c ∷ cookie)) (modify (has_cookie k) f db.sessions)) mine
    ∙ find-modify_self (has_cookie (c ∷ cookie)) f db.sessions keep
    ∙ ap (Option.map f) h
  where
    cookie_of : has_cookie (c ∷ cookie) s ≡ true → s.cookie_value ≡ c ∷ cookie
    cookie_of k = (same_iff _ _).0 (ground arith)

abbrev revoked_at_time : ℕ → Session → Session
revoked_at_time now s = record s { revoked_at = some now }

-- Only the branch that revokes the session answers so.
check_login_revokes :
    (env : Env) (s : Session) (v : Vendor) (allow : Option Text) (db : Database)
    → (check_login env s v allow db).0 ≡ ok (rejected authorization_changed)
    → (check_login env s v allow db).1 ≡ (revoke_session env.now s db).1
unfolding check_login ◌>>=◌ pure
check_login_revokes env s v none db h = cc
check_login_revokes env s v (some allow) db h = go (same v.github_login allow) h
  where
    both : Bool → Tx Verdict
    both b =
        if b
        then let_in env s v
        else revoke_session env.now s >> pure (rejected authorization_changed)

    go :
        (b : Bool)
        → (both b db).0 ≡ ok (rejected authorization_changed)
        → (both b db).1 ≡ (revoke_session env.now s db).1
    go true k =
        let e : ok (goes_on _) ≡ ok (rejected authorization_changed) =
          sym (let_in_lem env s v db) ∙ k in
        cc
    go false k = refl

check_vendor_revokes :
    (env : Env) (s : Session) (v : Vendor) (db : Database)
    → (check_vendor env s v db).0 ≡ ok (rejected authorization_changed)
    → (check_vendor env s v db).1 ≡ (revoke_session env.now s db).1
unfolding check_vendor
check_vendor_revokes env s v db h = go (demo_mode env) h
  where
    both : Bool → Tx Verdict
    both b = if b then let_in env s v else check_login env s v (allowlisted_login env)

    go :
        (b : Bool)
        → (both b db).0 ≡ ok (rejected authorization_changed)
        → (both b db).1 ≡ (revoke_session env.now s db).1
    go true k =
        let e : ok (goes_on _) ≡ ok (rejected authorization_changed) =
          sym (let_in_lem env s v db) ∙ k in
        cc
    go false k = check_login_revokes env s v (allowlisted_login env) db k

check_session_revokes :
    (env : Env) (session : Option Session) (vendor : Option Vendor) (db : Database)
    → (check_session env session vendor db).0 ≡ ok (rejected authorization_changed)
    → (s : Session) × (session ≡ some s)
      × ((check_session env session vendor db).1 ≡ (revoke_session env.now s db).1)
unfolding check_session pure
check_session_revokes env none vendor db h = cc
check_session_revokes env (some s) none db h = cc
check_session_revokes env (some s) (some v) db h = go (session_invalid_reason env.now (some s)) h
  where
    both : Option Invalid → Tx Verdict
    both r = elim r [ none ↦ check_vendor env s v | some reason ↦ pure (rejected bad_session) ]

    go :
        (r : Option Invalid)
        → (both r db).0 ≡ ok (rejected authorization_changed)
        → (x : Session) × (some s ≡ some x) × ((both r db).1 ≡ (revoke_session env.now x db).1)
    go none k = (s, refl, check_vendor_revokes env s v db k)
    go (some reason) k = cc

-- A revoked session is refused, whoever its vendor is.
revoked_refused :
    (env : Env) (now : ℕ) (s : Session) (vendor : Option Vendor)
    → answer env
        (judge_session env (some (revoked_at_time now s)) vendor)
        (some (revoked_at_time now s))
        vendor
      ≡ rejected bad_session
unfolding judge_session answer session_invalid_reason judge_age
revoked_refused env now s none = refl
revoked_refused env now s (some v) = refl

enforce_revokes :
    (env : Env) (cookie : Text) (db : Database)
    → (enforce env cookie db).0 ≡ ok (rejected authorization_changed)
    → (s : Session) × (load_session cookie (enforce env cookie db).1
        ≡ some (revoked_at_time env.now s))
unfolding enforce ◌>>=◌ load_session_with_vendor
enforce_revokes env cookie db h =
    let found = load_session cookie db in
    let (s, e, wrote) = check_session_revokes env found (session_vendor found db) db h in
    (s, rw wrote (revoked_row env s cookie db e))
  where
    revoked_row :
        (env : Env) (s : Session) (cookie : Text) (db : Database)
        → load_session cookie db ≡ some s
        → load_session cookie (revoke_session env.now s db).1 ≡ some (revoked_at_time env.now s)
    revoked_row env s cookie db e =
        load_session-change cookie (revoked_at_time env.now) db (λ r h. h) e

session_middleware_revokes :
    (env : Env) (path cookie : Text) (db : Database)
    → (session_middleware env path cookie db).0 ≡ ok (rejected authorization_changed)
    → (s : Session) × (load_session cookie (session_middleware env path cookie db).1
        ≡ some (revoked_at_time env.now s))
unfolding session_middleware gets
session_middleware_revokes env path cookie db h = go (is_public_path env path) h
  where
    both : Bool → Tx Verdict
    both b =
        if b
        then gets (λ db.
          let loaded = load_session_with_vendor cookie db in
          goes_on (public_state env.now loaded.0 loaded.1))
        else session_scope (enforce env cookie)

    go :
        (b : Bool)
        → (both b db).0 ≡ ok (rejected authorization_changed)
        → (s : Session) × (load_session cookie (both b db).1 ≡ some (revoked_at_time env.now s))
    go true k = let e : goes_on _ ≡ rejected authorization_changed = ok_inj k in cc
    go false k =
        let said = sym (session_scope_result (enforce env cookie) db) ∙ k in
        let (s, found) = enforce_revokes env cookie db said in
        (s, rw (session_scope_commits (enforce env cookie) db said) found)

-- Once the middleware has answered that the authorization changed, it refuses every later request with the
-- same cookie to a page that is not public, at any time and also when the configuration allows the
-- vendor again.
pub session_middleware_revoked :
    (env later : Env) (path path' cookie : Text) (db : Database)
    → (session_middleware env path cookie db).0 ≡ ok (rejected authorization_changed)
    → is_public_path later path' ≡ false
    → (session_middleware later path' cookie (session_middleware env path cookie db).1).0
      ≡ ok (rejected bad_session)
unfolding load_session_with_vendor
session_middleware_revoked env later path path' cookie db h private =
    let db' = (session_middleware env path cookie db).1 in
    let (s, found) = session_middleware_revokes env path cookie db h in
    session_middleware_lem later path' cookie db' private
    ∙ ap
        (λ o.
          ok (answer later (judge_session later o (session_vendor o db')) o (session_vendor o db')))
        found
    ∙ ap ok (revoked_refused later env.now s _)
