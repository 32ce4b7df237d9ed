-- ===== src/Auth/Freshness.antt =====
-- How fresh the session is that a page sees behind the middleware.
use native.Mathlib.Omega.{arith}
use patchline.Prelude.{ℕ, ◌+◌, ◌≡◌, ◌≤◌, ◌<◌, refl, sym, ap, ◌∙◌, false, Option, none, some, Text}
use patchline.Models.{Database, Session, Vendor}
use patchline.Tx.{Result, ok}
use patchline.Env.{Env}
use patchline.Env.Ints.{pos, is_past_age}
use patchline.Auth.{
  is_public_path, load_session_with_vendor, touched, needs_step_up, step_up_age_seconds,
  activity_flush_seconds,
}
use patchline.Auth.Middleware.{
  RequestState, Rejection, Verdict, goes_on, rejected, session_middleware,
}
use patchline.Auth.Admission.{answer, judge_session, session_middleware_lem}

abbrev seen_session : Verdict → Option Session
seen_session (goes_on state) = state.session
seen_session (rejected r) = none

-- A request that goes on has the session that was found, with its activity touched.
answer_session :
    (env : Env) (r : Option Rejection) (session : Option Session) (vendor : Option Vendor)
    {state : RequestState}
    → answer env r session vendor ≡ goes_on state
    → (s : Session) × (session ≡ some s) × (state.session ≡ some (touched env.now s))
unfolding answer
answer_session env (some r) session vendor h = let k : rejected r ≡ goes_on _ = h in cc
answer_session env none none vendor h = cc
answer_session env none (some s) none h = cc
answer_session env none (some s) (some v) h = (s, refl, ap seen_session (sym h))

pub ok_inj : {v w : Verdict} → Path (Result Verdict) (ok v) (ok w) → v ≡ w
ok_inj h = cc

-- The time since the last activity is less than sixty seconds once it has been touched.
touched_fresh :
    (now : ℕ) (s : Session) → now < (touched now s).last_activity_at + activity_flush_seconds
unfolding touched
touched_fresh now s = ground arith

-- A session that was touched a moment ago needs no new sign-in.
touched_stays :
    (env later : Env) (s : Session) {age : ℕ}
    → step_up_age_seconds later ≡ pos age
    → later.now + activity_flush_seconds ≤ env.now + age + 1
    → needs_step_up later (some (touched env.now s)) ≡ false
unfolding needs_step_up is_past_age
touched_stays env later s {age} e h = let k = touched_fresh env.now s in rw e (ground (arith, k, h))

-- A page behind the middleware sees a session whose last activity is less than sixty seconds before the
-- request. So where the configured age is not negative and the request reaches `needs_step_up` before its
-- clock has gone on by that age less sixty seconds, no new sign-in is asked for, however long ago the
-- vendor was active.
pub session_middleware_fresh :
    (env later : Env) (path cookie : Text) (db : Database) (state : RequestState) (age : ℕ)
    → is_public_path env path ≡ false
    → (session_middleware env path cookie db).0 ≡ ok (goes_on state)
    → step_up_age_seconds later ≡ pos age
    → later.now + activity_flush_seconds ≤ env.now + age + 1
    → (s : Session) × (state.session ≡ some s)
      × (env.now < s.last_activity_at + activity_flush_seconds)
      × (needs_step_up later state.session ≡ false)
session_middleware_fresh env later path cookie db state age private h e soon =
    let loaded = load_session_with_vendor cookie db in
    let said : ok (answer env (judge_session env loaded.0 loaded.1) loaded.0 loaded.1)
        ≡ ok (goes_on state) =
      sym (session_middleware_lem env path cookie db private) ∙ h in
    let (s, found, seen) = answer_session env _ loaded.0 loaded.1 {state = state} (ok_inj said) in
    (
      touched env.now s,
      seen,
      touched_fresh env.now s,
      rw seen (touched_stays env later s {age = age} e soon),
    )
