-- ===== src/Auth/Login/SingleUse.antt =====
-- The state of a sign-in counts once: `github_callback` of src/patchline/routes/auth.py, asked twice.
use patchline.Prelude.{
  subst, ℕ, ◌≡◌, refl, sym, ap, inl, inr, ◌∙◌, true, false, Option, none, some, [], ◌∷◌, Text, same,
  Bool-cases, find,
}
use patchline.Models.{Database, Session, Vendor}
use patchline.Query.{modify}
use patchline.Tx.{ok, pure, gets, change, ◌>>=◌, session_scope}
use patchline.Tx.Respects.{
  Respects, IsHistory, respects_rules, Respects-change, session_scope_commits,
}
use patchline.Env.{Env}
use patchline.Security.{Hmac}
use patchline.Auth.{mint_csrf, List, Draws, load_session, has_cookie, change_session, ensure_csrf}
use patchline.Auth.Revocation.{load_session-change}
use patchline.Auth.Login.{
  spend_state, add_vendor, stored_state, GithubUser, error_page, state_matches, consume_state,
  ensure_vendor, sign_in, complete_login, finish_login, check_state, github_callback,
}

found_state : Text → List Session → Text
found_state cookie rows = stored_state (find (has_cookie cookie) rows)

-- A change of a session that keeps its cookie and its state.
found_state-modify :
    (cookie mine : Text) (f : Session → Session) (rows : List Session)
    → ((r : Session) → has_cookie cookie (f r) ≡ has_cookie cookie r)
    → ((r : Session) → (f r).oauth_state ≡ r.oauth_state)
    → found_state cookie (modify (has_cookie mine) f rows) ≡ found_state cookie rows
unfolding found_state modify find
found_state-modify cookie mine f [] keep state = refl
found_state-modify cookie mine f (r ∷ rows) keep state = elim (Bool-cases (has_cookie mine r)) [
  | inl e ↦ rw e (elim (Bool-cases (has_cookie cookie r)) [
    | inl m ↦ rw (keep r) (rw m (rw (state r) refl))
    | inr m ↦ rw (keep r) (rw m refl)
  ])
  | inr e ↦ rw e (elim (Bool-cases (has_cookie cookie r)) [
    | inl m ↦ rw m refl
    | inr m ↦ rw m (found_state-modify cookie mine f rows keep state)
  ])
]

module _ (cookie : Text) where
  -- The session of the cookie waits for no state.
  IsSpent : Database → Type 0
  IsSpent db = found_state cookie db.sessions ≡ []

  abbrev Spends : Database → Database → Type 0
  Spends a b = IsSpent a → IsSpent b

  Spends-IsHistory : IsHistory Spends
  Spends-IsHistory = record { stay = λ db h. h; go_on = λ a b c f g h. g (f h) }

  change_session-Spends :
      (mine : Text) (f : Session → Session)
      → ((r : Session) → has_cookie cookie (f r) ≡ has_cookie cookie r)
      → ((r : Session) → (f r).oauth_state ≡ r.oauth_state)
      → Respects Spends (change_session mine f)
  unfolding change_session IsSpent
  change_session-Spends mine f keep state =
      Respects-change Spends-IsHistory _
        (λ db h. found_state-modify cookie mine f db.sessions keep state ∙ h)

  other_change-Spends :
      (f : Database → Database)
      → ((db : Database) → (f db).sessions ≡ db.sessions)
      → Respects Spends (change f)
  unfolding IsSpent
  other_change-Spends f same_rows = Respects-change Spends-IsHistory f (λ db h. rw (same_rows db) h)

  add_vendor-Spends :
      (i : ℕ) (name : Text) (v : Option Vendor) → Respects Spends (add_vendor i name v)
  add_vendor-Spends i name none = search (respects_rules, Spends-IsHistory, other_change-Spends)
  add_vendor-Spends i name (some v) = search (respects_rules, Spends-IsHistory)

  ensure_vendor-Spends : (i : ℕ) (name : Text) → Respects Spends (ensure_vendor i name)
  unfolding ensure_vendor
  ensure_vendor-Spends i name = search (respects_rules, Spends-IsHistory, add_vendor-Spends)

  mint_csrf-Spends :
      (hmac : Hmac) (env : Env) (draws : Draws) (s : Session) (t : Option Text)
      → Respects Spends (mint_csrf hmac env draws s t)
  unfolding mint_csrf
  mint_csrf-Spends hmac env draws s none =
      search (respects_rules, Spends-IsHistory, change_session-Spends)
  mint_csrf-Spends hmac env draws s (some []) =
      search (respects_rules, Spends-IsHistory, change_session-Spends)
  mint_csrf-Spends hmac env draws s (some (c ∷ t)) = search (respects_rules, Spends-IsHistory)

  sign_in-Spends :
      (hmac : Hmac) (env : Env) (draws : Draws) (v : ℕ) (s : Option Session)
      → Respects Spends (sign_in hmac env draws v s)
  unfolding sign_in ensure_csrf
  sign_in-Spends hmac env draws v none = search (respects_rules, Spends-IsHistory)
  sign_in-Spends hmac env draws v (some s) =
      search (respects_rules, Spends-IsHistory, change_session-Spends, mint_csrf-Spends)

  complete_login-Spends :
      (hmac : Hmac) (env : Env) (draws : Draws) (name : Text) (user : GithubUser)
      → Respects Spends (complete_login hmac env draws cookie name user)
  unfolding complete_login
  complete_login-Spends hmac env draws name user =
      search (respects_rules, Spends-IsHistory, ensure_vendor-Spends, sign_in-Spends) depth 9

  finish_login-Spends :
      (hmac : Hmac) (env : Env) (draws : Draws) (target : Text) (user : Option GithubUser)
      → Respects Spends (finish_login hmac env draws cookie target user)
  unfolding finish_login
  finish_login-Spends hmac env draws target none = search (respects_rules, Spends-IsHistory)
  finish_login-Spends hmac env draws target (some user) =
      search (respects_rules, Spends-IsHistory, complete_login-Spends)

-- A session that waits for no state matches none.
spent_refuses :
    (cookie state : Text) (db : Database)
    → IsSpent cookie db
    → state_matches state (load_session cookie db) ≡ false
unfolding IsSpent found_state state_matches load_session same
spent_refuses cookie [] db h = refl
spent_refuses [] (c ∷ state) db h = refl
spent_refuses (d ∷ cookie) (c ∷ state) db h = rw h refl

refused_spend :
    (state : Text) (session : Option Session) (db : Database)
    → state_matches state session ≡ false
    → spend_state state session db ≡ (ok false, db)
unfolding pure spend_state
refused_spend state none db h = refl
refused_spend state (some s) db h = rw h refl

refused_state :
    (cookie state : Text) (db : Database)
    → state_matches state (load_session cookie db) ≡ false
    → consume_state cookie state db ≡ (ok false, db)
unfolding consume_state session_scope ◌>>=◌
refused_state cookie state db h = rw (refused_spend state (load_session cookie db) db h) refl

abbrev spent_session : Session → Session
spent_session s = record s { oauth_state = none }

-- The session that a cookie finds is the first with this cookie.
load_session_found :
    (cookie : Text) (db : Database) {s : Session}
    → load_session cookie db ≡ some s
    → find (has_cookie cookie) db.sessions ≡ some s
unfolding load_session
load_session_found [] db h = cc
load_session_found (c ∷ cookie) db h = h

spend_state-IsSpent :
    (cookie state : Text) (session : Option Session) (db : Database)
    → load_session cookie db ≡ session
    → state_matches state session ≡ true
    → ((spend_state state session db).0 ≡ ok true) × IsSpent cookie (spend_state state session db).1
unfolding pure ◌>>=◌ change_session IsSpent found_state spend_state state_matches same
spend_state-IsSpent cookie [] none db h m = cc
spend_state-IsSpent cookie (c ∷ state) none db h m = cc
spend_state-IsSpent cookie state (some s) db h m = rw m (
  refl,
  ap stored_state (
      load_session_found cookie (change_session s.cookie_value spent_session db).1
        (load_session-change cookie spent_session db (λ r k. k) h)),
)

consume_state-IsSpent :
    (cookie state : Text) (db : Database)
    → state_matches state (load_session cookie db) ≡ true
    → ((consume_state cookie state db).0 ≡ ok true)
      × IsSpent cookie (consume_state cookie state db).1
unfolding consume_state ◌>>=◌
consume_state-IsSpent cookie state db m =
    let (said, spent) = spend_state-IsSpent cookie state (load_session cookie db) db refl m in
    let all = session_scope_commits (gets (load_session cookie) >>= spend_state state) db said in
    (ap (λ r. r.0) all, subst (λ r. IsSpent cookie r.1) (sym all) spent)

-- A callback whose state does not match answers with an error and writes nothing.
unmatched :
    (hmac : Hmac) (env : Env) (draws : Draws) (cookie state redirect_to error : Text)
    (user : Option GithubUser) (db : Database)
    → state_matches state (load_session cookie db) ≡ false
    → github_callback hmac env draws cookie state redirect_to error user db
      ≡ (ok (error_page 400), db)
unfolding github_callback check_state ◌>>=◌ pure
unmatched hmac env draws cookie state redirect_to (c ∷ error) user db h = refl
unmatched hmac env draws cookie state redirect_to [] user db h =
    rw (refused_state cookie state db h) refl

-- A callback whose state matches leaves a session that waits for no state.
matched-IsSpent :
    (hmac : Hmac) (env : Env) (draws : Draws) (cookie state redirect_to : Text)
    (user : Option GithubUser) (db : Database)
    → state_matches state (load_session cookie db) ≡ true
    → IsSpent cookie (github_callback hmac env draws cookie state redirect_to [] user db).1
unfolding github_callback check_state ◌>>=◌
matched-IsSpent hmac env draws cookie state redirect_to user db h =
    let (said, spent) = consume_state-IsSpent cookie state db h in
    rw said (
      (finish_login-Spends cookie hmac env draws _ user).at (consume_state cookie state db).1 spent)

-- Once a callback that GitHub has sent without an error has been answered, whatever the answer was, a
-- second one with the same state and the same cookie is answered with an error page: the state that was
-- stored is used up by the first.
pub github_callback_once :
    (hmac : Hmac) (env later : Env) (draws draws' : Draws)
    (cookie state redirect_to redirect_to' error : Text) (user user' : Option GithubUser)
    (db : Database)
    → let first = github_callback hmac env draws cookie state redirect_to [] user db in
      github_callback hmac later draws' cookie state redirect_to' error user' first.1
      ≡ (ok (error_page 400), first.1)
github_callback_once hmac env later draws draws' cookie state redirect_to redirect_to' error user
      user' db =
    unmatched hmac later draws' cookie state redirect_to' error user' _
      (elim (Bool-cases (state_matches state (load_session cookie db))) [
        | inl e ↦
            spent_refuses cookie state _
              (matched-IsSpent hmac env draws cookie state redirect_to user db e)
        | inr e ↦ rw (unmatched hmac env draws cookie state redirect_to [] user db e) e
      ])
