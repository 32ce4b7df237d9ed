-- ===== src/Cli/RevokeSessions.antt =====
-- The command revoke-sessions of src/patchline/cli.py, and what it means for the requests behind it.
use native.Mathlib.Omega.{arith}
use patchline.Prelude.{
  ℕ, ◌≡◌, refl, ap, ◌∙◌, false, Option, none, some, List, [], ◌∷◌, Text, All, All-find,
}
use patchline.Models.{Database, Session, Vendor}
use patchline.Query.{modify_all}
use patchline.Tx.{Tx, ok, session_scope, ◌>>=◌}
use patchline.Env.{Env}
use patchline.Auth.{
  is_public_path, is_unrevoked, revoke_all_sessions, load_session, load_session_with_vendor,
  session_vendor, session_invalid_reason, has_cookie,
}
use patchline.Auth.Middleware.{rejected, bad_session, session_middleware}
use patchline.Auth.Admission.{answer, judge_session, judge_age, session_middleware_lem}

-- The number of sessions that were revoked.
unfoldable pub cmd_revoke_sessions : ℕ → Tx ℕ
unfolding session_scope revoke_all_sessions
cmd_revoke_sessions now = session_scope (revoke_all_sessions now)

revoke : ℕ → Session → Session
revoke now s = record s { revoked_at = some now }

-- Behind the change every session is revoked.
every_session_revoked :
    (now : ℕ) (rows : List Session)
    → All (λ s. is_unrevoked s ≡ false) (modify_all is_unrevoked (revoke now) rows)
unfolding modify_all revoke
every_session_revoked now [] = tt
every_session_revoked now (r ∷ rows) = (ground arith, every_session_revoked now rows)

load_session_revoked :
    (now : ℕ) (cookie : Text) (db : Database) {s : Session}
    → load_session cookie (cmd_revoke_sessions now db).1 ≡ some s
    → is_unrevoked s ≡ false
unfolding load_session cmd_revoke_sessions ◌>>=◌ revoke
load_session_revoked now [] db h = cc
load_session_revoked now (c ∷ cookie) db {s} h =
    All-find (λ s. is_unrevoked s ≡ false) (has_cookie (c ∷ cookie))
      (modify_all is_unrevoked (revoke now) db.sessions) {x = s} h
      (every_session_revoked now db.sessions)

-- A revoked session is refused, and so is a cookie without a session.
unrevoked_only :
    (env : Env) (found : Option Session) (vendor : Option Vendor)
    → ((s : Session) → found ≡ some s → is_unrevoked s ≡ false)
    → answer env (judge_session env found vendor) found vendor ≡ rejected bad_session
unfolding judge_session answer session_invalid_reason judge_age
unrevoked_only env none vendor h = refl
unrevoked_only env (some s) none h = refl
unrevoked_only env (some s) (some v) h = let k = h s refl in ground (arith, k)

-- Behind the command no cookie lets a request on to a page that is not public, at any time and under any
-- configuration.
pub cmd_revoke_sessions_refused :
    (now : ℕ) (env : Env) (path cookie : Text) (db : Database)
    → is_public_path env path ≡ false
    → (session_middleware env path cookie (cmd_revoke_sessions now db).1).0
      ≡ ok (rejected bad_session)
unfolding load_session_with_vendor
cmd_revoke_sessions_refused now env path cookie db private =
    let db' = (cmd_revoke_sessions now db).1 in
    let found = load_session cookie db' in
    session_middleware_lem env path cookie db' private
    ∙ ap ok (
        unrevoked_only env found (session_vendor found db')
          (λ s e. load_session_revoked now cookie db {s = s} e))
