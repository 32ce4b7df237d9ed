-- ===== src/Dispatch/Trust.antt =====
-- The trust model of dispatch: without a confirmation of the very diff nothing goes to GitHub.
use patchline.Prelude.{
  ℕ, ◌≡◌, refl, ◌∙◌, Bool, false, ◌&&◌, ◌||◌, not, Option, none, some, List, [], ◌∷◌, ◌++◌, Text,
  arith, ◌==◌, any, same, is_empty, or_blank,
}
use patchline.Models.{
  Database, Remediation, ChangelogEntry, Repository, remediation_table, entry_table,
  repository_table, confirmation_table,
}
use patchline.Query.{get}
use patchline.Tx.{Result, ok, err, is_ok, pure, raise, gets, change, session_scope, settle, ◌>>=◌}
use patchline.Env.{Env}
use patchline.Jobs.Row.{is_active}
use patchline.Dispatch.Github.{Github, Tools}
use patchline.Dispatch.Gate.{
  record_confirmation, confirms, confirmation_matches, is_dispatchable, DispatchContext,
  gate_target, gate_remediation, gate,
}
use patchline.Dispatch.Run.{after_gate, dispatch_remediation}

abbrev target_open : Option ChangelogEntry → Option Repository → Bool
target_open (some entry) (some repo) = is_active repo.connection_state
target_open _ _ = false

abbrev may_dispatch_row : Option Remediation → Database → Bool
may_dispatch_row none db = false
may_dispatch_row (some rem) db =
    is_dispatchable rem.status
    && confirmation_matches rem db.confirmations
    && target_open (get rem.entry_id db.entries) (get rem.repository_id db.repositories)

-- The whole condition: the remediation exists, is ready or failed to be dispatched before, has a
-- confirmation of its own key and hash, and its entry and its active repository exist.
abbrev pub may_dispatch : ℕ → Database → Bool
may_dispatch id db = may_dispatch_row (get id db.remediations) db

gate_target_lem :
    (tools : Tools) (rem : Remediation) (e : Option ChangelogEntry) (r : Option Repository)
    (db : Database)
    → (is_ok (gate_target tools rem e r db).0 ≡ target_open e r)
      × ((gate_target tools rem e r db).1 ≡ db)
unfolding gate_target gets raise
gate_target_lem tools rem (some entry) (some repo) db = ground arith
gate_target_lem tools rem (some entry) none db = (refl, refl)
gate_target_lem tools rem none r db = (refl, refl)

gate_remediation_lem :
    (tools : Tools) (o : Option Remediation) (db : Database)
    → (is_ok (gate_remediation tools o db).0 ≡ may_dispatch_row o db)
      × ((gate_remediation tools o db).1 ≡ db)
unfolding gate_remediation ◌>>=◌ gets raise
gate_remediation_lem tools none db = (refl, refl)
gate_remediation_lem tools (some rem) db =
    let t =
      gate_target_lem tools rem (get rem.entry_id db.entries)
        (get rem.repository_id db.repositories) db in
    ground (arith, t.0, t.1)

module _ {W : Type 0} (gh : Github W) (tools : Tools) (env : Env) (id : ℕ) where
  refused_run :
      (r : Result DispatchContext) (old new : Database) (w : W)
      → is_ok r ≡ false
      → let (begun, db) = settle r old new in
        (is_ok (after_gate gh tools env id begun db w).0.0 ≡ false)
        × ((after_gate gh tools env id begun db w).0.1 ≡ old)
        × ((after_gate gh tools env id begun db w).1 ≡ w)
  unfolding after_gate
  refused_run (ok c) old new w h = cc
  refused_run (err e) old new w h = (refl, refl, refl)

  -- If the condition does not hold the dispatch raises, and neither the database nor the world behind
  -- the GitHub client has changed: no call was made that could be seen.
  pub dispatch_refused :
      (db : Database) (w : W)
      → may_dispatch id db ≡ false
      → (is_ok (dispatch_remediation gh tools env id db w).0.0 ≡ false)
        × ((dispatch_remediation gh tools env id db w).0.1 ≡ db)
        × ((dispatch_remediation gh tools env id db w).1 ≡ w)
  unfolding dispatch_remediation session_scope gate ◌>>=◌ gets
  dispatch_refused db w h =
      let g = gate_remediation_lem tools (get id db.remediations) db in
      refused_run _ db _ w (g.0 ∙ h)

any-append_one :
    {A : Type 0} (p : A → Bool) (xs : List A) (x : A) → any p (xs ++ x ∷ []) ≡ (any p xs || p x)
unfolding any
any-append_one p [] x = ground arith
any-append_one p (y ∷ xs) x = ground (arith, any-append_one p xs x)

-- Recording a confirmation confirms the remediation with that hash, and no other remediation: what was
-- confirmed stays confirmed, and nothing else becomes so.
pub confirmation_matches-record_confirmation :
    (rem other : Remediation) (vendor : ℕ) (hash : Text) (db : Database)
    → confirmation_matches other (record_confirmation rem vendor hash db).1.confirmations ≡ (
        confirmation_matches other db.confirmations
        || (not (is_empty (or_blank other.diff_sha256))
            && (rem.id == other.id && same hash (or_blank other.diff_sha256))))
unfolding confirmation_matches record_confirmation ◌>>=◌ gets change pure is_empty
confirmation_matches-record_confirmation rem other vendor hash db = go other.diff_sha256 refl
  where
    go :
        (o : Option Text)
        → other.diff_sha256 ≡ o
        → confirmation_matches other (record_confirmation rem vendor hash db).1.confirmations ≡ (
            confirmation_matches other db.confirmations
            || (not (is_empty (or_blank other.diff_sha256))
                && (rem.id == other.id && same hash (or_blank other.diff_sha256))))
    go none e = rw e refl
    go (some []) e = rw e refl
    go (some (c ∷ s)) e = rw e (any-append_one (confirms other.id (c ∷ s)) db.confirmations _)
