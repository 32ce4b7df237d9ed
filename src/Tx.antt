-- ===== src/Tx.antt =====
-- A database transaction: `session_scope` of src/patchline/db.py and the code inside it. The code reads
-- and writes the session's view of the database, and may raise. A `try` inside the block goes on from
-- what was written before the raise, so the view comes back beside an error too.
pub mod Respects
use patchline.Prelude.{Text, Bool, true, false, List, [], ◌∷◌}
use patchline.Models.{Database, Status}

-- The exceptions that the modelled code raises.
pub data Error : Type 0 where
  invalid_transition : Status → Status → Error
  value_error : Text → Error
  -- an attribute of None is read
  attribute_error : Error
  stale_confirmation : Error
  dispatch_failure : Text → Error

pub data Result (A : Type 0) : Type 0 where
  ok : A → Result A
  err : Error → Result A

abbrev pub is_ok : {A : Type 0} → Result A → Bool
is_ok (ok a) = true
is_ok (err e) = false

abbrev pub Tx : Type 0 → Type 0
Tx A = Database → Result A × Database

module _ {A : Type 0} where
  unfoldable pub pure : A → Tx A
  pure a db = (ok a, db)

  unfoldable pub raise : Error → Tx A
  raise e db = (err e, db)

  unfoldable pub gets : (Database → A) → Tx A
  gets f db = (ok (f db), db)

-- A computation that may raise and touches no row.
unfoldable pub lift : {A : Type 0} → Result A → Tx A
lift r db = (r, db)

-- A write to the session.
unfoldable pub change : (Database → Database) → Tx (Unit {0})
change f db = (ok tt, f db)

module _ {A B : Type 0} where
  abbrev pub continue : Result A → (A → Tx B) → Tx B
  continue (ok a) f db = f a db
  continue (err e) f db = (err e, db)

  infixl 10 ◌>>=◌ ◌>>◌
  -- Opening this opens `pure`, `raise`, `gets` and `change` too.
  unfoldable pub ◌>>=◌ : Tx A → (A → Tx B) → Tx B
  unfolding pure raise gets change lift
  ◌>>=◌ m f db = let (r, db') = m db in continue r f db'

  abbrev pub ◌>>◌ : Tx A → Tx B → Tx B
  m >> n = m >>= λ _. n

module _ {A : Type 0} where
  abbrev pub handle : Result A → (Error → Tx A) → Tx A
  handle (ok a) h db = (ok a, db)
  handle (err e) h db = h e db

  -- try: m except Exception as e: h(e)
  unfoldable pub catch : Tx A → (Error → Tx A) → Tx A
  catch m h db = let (r, db') = m db in handle r h db'

  abbrev pub settle : Result A → Database → Database → Result A × Database
  settle (ok a) old new = (ok a, new)
  settle (err e) old new = (err e, old)

  -- with session_scope() as sess: m. It commits on success and rolls back on any exception.
  unfoldable pub session_scope : Tx A → Tx A
  session_scope m db = let (r, db') = m db in settle r db db'

-- for x in xs: f(x)
unfoldable pub for_each : {A : Type 0} → List A → (A → Tx (Unit {0})) → Tx (Unit {0})
for_each [] f = pure tt
for_each (x ∷ xs) f = f x >> for_each xs f

-- if b: m
unfoldable pub when : Bool → Tx (Unit {0}) → Tx (Unit {0})
when true m = m
when false m = pure tt
