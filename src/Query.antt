-- ===== src/Query.antt =====
-- What the code asks of SQLAlchemy, over a list of rows: a lookup by primary key, a change of the row
-- that a query found, the next free key, and an insertion.
mod Modify
pub mod Keys
pub mod Members
use patchline.Prelude.{ℕ, suc, ◌==◌, max, List, [], ◌∷◌, Option, find}
use patchline.Models.{Table}
unfoldable pub use Modify.*

module _ {A : Type 0} ⦃t : Table A⦄ where
  -- sess.get(Model, i)
  unfoldable pub get : ℕ → List A → Option A
  get i rows = find (λ r. t.id r == i) rows

  -- SQLite gives a new row of an INTEGER PRIMARY KEY table one more than the largest key.
  unfoldable pub next_id : List A → ℕ
  next_id [] = 1
  next_id (r ∷ rows) = max (suc (t.id r)) (next_id rows)
