-- ===== src/Tx/Respects.antt =====
-- Relations between the database before and after a piece of code, whether it returns or raises: one
-- rule for each way to build such code. A relation "P before gives P after" is an invariant.
use patchline.Prelude.{◌≡◌, refl, Bool, true, false, List, [], ◌∷◌, if◌then◌else◌}
use patchline.Models.{Database}
use patchline.Tx.{
  Error, Result, ok, err, Tx, pure, raise, gets, change, lift, ◌>>=◌, continue, handle, catch,
  settle, session_scope, for_each, when,
}

pub record Respects {A : Type 0} (R : Database → Database → Type 0) (m : Tx A) : Type 0 where
  pub at : (db : Database) → R db (m db).1

-- What a relation needs for the rules.
pub record IsHistory (R : Database → Database → Type 0) : Type 0 where
  pub stay : (db : Database) → R db db
  pub go_on : (a b c : Database) → R a b → R b c → R a c

module _ {R : Database → Database → Type 0} (h : IsHistory R) where
  pub Respects-pure : {A : Type 0} (a : A) → Respects R (pure a)
  unfolding pure
  Respects-pure a = record { at = h.stay }

  pub Respects-raise : {A : Type 0} (e : Error) → Respects R (raise {A = A} e)
  unfolding raise
  Respects-raise e = record { at = h.stay }

  pub Respects-gets : {A : Type 0} (f : Database → A) → Respects R (gets f)
  unfolding gets
  Respects-gets f = record { at = h.stay }

  pub Respects-lift : {A : Type 0} (r : Result A) → Respects R (lift r)
  unfolding lift
  Respects-lift r = record { at = h.stay }

  pub Respects-change :
      (f : Database → Database) → ((db : Database) → R db (f db)) → Respects R (change f)
  unfolding change
  Respects-change f k = record { at = k }

  continue-Respects :
      {A B : Type 0} (r : Result A) (f : A → Tx B) (a b : Database)
      → R a b
      → ((x : A) → Respects R (f x))
      → R a (continue r f b).1
  continue-Respects (ok x) f a b ab kf = h.go_on a b _ ab ((kf x).at b)
  continue-Respects (err e) f a b ab kf = ab

  pub Respects-bind :
      {A B : Type 0} (m : Tx A) (f : A → Tx B)
      → Respects R m
      → ((x : A) → Respects R (f x))
      → Respects R (m >>= f)
  unfolding ◌>>=◌
  Respects-bind m f km kf = record {
    at = λ db. let (r, db') = m db in continue-Respects r f db db' (km.at db) kf;
  }

  handle-Respects :
      {A : Type 0} (r : Result A) (f : Error → Tx A) (a b : Database)
      → R a b
      → ((e : Error) → Respects R (f e))
      → R a (handle r f b).1
  handle-Respects (ok x) f a b ab kf = ab
  handle-Respects (err e) f a b ab kf = h.go_on a b _ ab ((kf e).at b)

  pub Respects-catch :
      {A : Type 0} (m : Tx A) (f : Error → Tx A)
      → Respects R m
      → ((e : Error) → Respects R (f e))
      → Respects R (catch m f)
  unfolding catch
  Respects-catch m f km kf = record {
    at = λ db. let (r, db') = m db in handle-Respects r f db db' (km.at db) kf;
  }

  settle-Respects : {A : Type 0} (r : Result A) (a b : Database) → R a b → R a (settle r a b).1
  settle-Respects (ok x) a b ab = ab
  settle-Respects (err e) a b ab = h.stay a

  pub Respects-session_scope : {A : Type 0} (m : Tx A) → Respects R m → Respects R (session_scope m)
  unfolding session_scope
  Respects-session_scope m km = record {
    at = λ db. let (r, db') = m db in settle-Respects r db db' (km.at db);
  }

  pub Respects-if :
      {A : Type 0} (b : Bool) (m n : Tx A)
      → (b ≡ true → Respects R m)
      → (b ≡ false → Respects R n)
      → Respects R (if b then m else n)
  Respects-if true m n km kn = km refl
  Respects-if false m n km kn = kn refl

  pub Respects-when :
      (b : Bool) (m : Tx (Unit {0})) → (b ≡ true → Respects R m) → Respects R (when b m)
  unfolding when
  Respects-when true m km = km refl
  Respects-when false m km = Respects-pure tt

  pub Respects-for_each :
      {A : Type 0} (xs : List A) (f : A → Tx (Unit {0}))
      → ((x : A) → Respects R (f x))
      → Respects R (for_each xs f)
  unfolding for_each
  Respects-for_each [] f kf = Respects-pure tt
  Respects-for_each (x ∷ xs) f kf = Respects-bind (f x) _ (kf x) (λ _. Respects-for_each xs f kf)

pub ruleset respects_rules = (
  Respects-pure, Respects-raise, Respects-gets, Respects-lift, Respects-bind, Respects-catch,
  Respects-session_scope, Respects-if, Respects-when, Respects-for_each,
)

-- A block that returns gives its result, and what it wrote is kept.
pub session_scope_result :
    {A : Type 0} (m : Tx A) (db : Database) → (session_scope m db).0 ≡ (m db).0
unfolding session_scope
session_scope_result {A} m db = go (m db).0 (m db).1
  where
    go : (r : Result A) (db' : Database) → (settle r db db').0 ≡ r
    go (ok a) db' = refl
    go (err x) db' = refl

pub session_scope_commits :
    {A : Type 0} (m : Tx A) (db : Database) {a : A}
    → (m db).0 ≡ ok a
    → session_scope m db ≡ (ok a, (m db).1)
unfolding session_scope
session_scope_commits {A} m db {a} h = rw h refl
