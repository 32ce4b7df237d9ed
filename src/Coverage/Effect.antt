-- ===== src/Coverage/Effect.antt =====
-- What a piece of a transaction does to the board: whether it succeeds, and the status of every pair
-- after it. A piece is quiet if it always succeeds and moves no pair.
use patchline.Prelude.{
  ℕ, ◌≡◌, refl, ◌∙◌, Bool, true, false, ◌&&◌, Option, none, some, ◌==◌, arith, if◌then◌else◌,
}
use patchline.Models.{Status, Database}
use patchline.Tx.{
  Tx, Result, ok, err, is_ok, pure, gets, change, lift, ◌>>=◌, continue, when, session_scope,
  settle,
}
use patchline.Coverage.{Transition, apply_transition}
use patchline.Coverage.Board.{status_of, is_allowed, board-apply_transition}

-- May the pair go on to this status? None asks for no change.
abbrev pub permits : Status → Option Status → Bool
permits s none = true
permits s (some to) = is_allowed s to

-- The status of a pair after a permitted move of the pair (e, r).
abbrev pub after : Option Status → Status → Bool → Status
after none old here = old
after (some to) old here = if here then to else old

pub record Moves {A : Type 0} (m : Tx A) (e r : ℕ) (to : Option Status) : Type 0 where
  pub answer : (db : Database) → is_ok (m db).0 ≡ permits (status_of db.coverage e r) to
  pub board :
      (db : Database) (e' r' : ℕ)
      → status_of (m db).1.coverage e' r' ≡ (
          if permits (status_of db.coverage e r) to
          then after to (status_of db.coverage e' r') (e == e' && r == r')
          else status_of db.coverage e' r')

pub record IsQuiet {A : Type 0} (m : Tx A) : Type 0 where
  pub answer : (db : Database) → is_ok (m db).0 ≡ true
  pub board :
      (db : Database) (e r : ℕ) → status_of (m db).1.coverage e r ≡ status_of db.coverage e r

module _ {A : Type 0} where
  pub IsQuiet-pure : (a : A) → IsQuiet (pure a)
  unfolding pure
  IsQuiet-pure a = record { answer = λ db. refl; board = λ db e r. refl }

  pub IsQuiet-gets : (f : Database → A) → IsQuiet (gets f)
  unfolding gets
  IsQuiet-gets f = record { answer = λ db. refl; board = λ db e r. refl }

  pub IsQuiet-lift : (r : Result A) → is_ok r ≡ true → IsQuiet (lift r)
  unfolding lift
  IsQuiet-lift r h = record { answer = λ db. h; board = λ db e r. refl }

pub IsQuiet-change :
    (f : Database → Database)
    → ((db : Database) → (f db).coverage ≡ db.coverage)
    → IsQuiet (change f)
unfolding change
IsQuiet-change f h = record { answer = λ db. refl; board = λ db e r. rw (h db) }

module _ {A B : Type 0} where
  quiet_continue :
      (x : Result A) (f : A → Tx B) (db : Database)
      → is_ok x ≡ true
      → ((a : A) → IsQuiet (f a))
      → (is_ok (continue x f db).0 ≡ true)
        × ((e r : ℕ) → status_of (continue x f db).1.coverage e r ≡ status_of db.coverage e r)
  quiet_continue (ok a) f db h k = ((k a).answer db, (k a).board db)
  quiet_continue (err x) f db h k = cc

  pub IsQuiet-bind :
      (m : Tx A) (f : A → Tx B) → IsQuiet m → ((a : A) → IsQuiet (f a)) → IsQuiet (m >>= f)
  unfolding ◌>>=◌
  IsQuiet-bind m f km kf = record {
    answer = λ db. (quiet_continue (m db).0 f (m db).1 (km.answer db) kf).0;
    board =
        λ db e r. (quiet_continue (m db).0 f (m db).1 (km.answer db) kf).1 e r ∙ km.board db e r;
  }

  Moves-continue :
      (x : Result A) (f : A → Tx B) (db : Database) (e r : ℕ) (to : Option Status)
      → is_ok x ≡ true
      → ((a : A) → Moves (f a) e r to)
      → (is_ok (continue x f db).0 ≡ permits (status_of db.coverage e r) to)
        × ((e' r' : ℕ)
            → status_of (continue x f db).1.coverage e' r' ≡ (
                if permits (status_of db.coverage e r) to
                then after to (status_of db.coverage e' r') (e == e' && r == r')
                else status_of db.coverage e' r'))
  Moves-continue (ok a) f db e r to h k = ((k a).answer db, (k a).board db)
  Moves-continue (err x) f db e r to h k = cc

  -- Quiet code in front of a move.
  pub Moves-after :
      (m : Tx A) (f : A → Tx B) (e r : ℕ) (to : Option Status)
      → IsQuiet m
      → ((a : A) → Moves (f a) e r to)
      → Moves (m >>= f) e r to
  unfolding ◌>>=◌
  Moves-after m f e r to km kf = record {
    answer = λ db.
        rw (← km.board db e r) (Moves-continue (m db).0 f (m db).1 e r to (km.answer db) kf).0;
    board = λ db e' r'.
        rw (← km.board db e r, ← km.board db e' r')
          ((Moves-continue (m db).0 f (m db).1 e r to (km.answer db) kf).1 e' r');
  }

  continue_quiet :
      (x : Result A) (f : A → Tx B) (db : Database)
      → ((a : A) → IsQuiet (f a))
      → (is_ok (continue x f db).0 ≡ is_ok x)
        × ((e r : ℕ) → status_of (continue x f db).1.coverage e r ≡ status_of db.coverage e r)
  continue_quiet (ok a) f db k = ((k a).answer db, (k a).board db)
  continue_quiet (err x) f db k = (refl, λ e r. refl)

  -- Quiet code behind a move.
  pub Moves-before :
      (m : Tx A) (f : A → Tx B) (e r : ℕ) (to : Option Status)
      → Moves m e r to
      → ((a : A) → IsQuiet (f a))
      → Moves (m >>= f) e r to
  unfolding ◌>>=◌
  Moves-before m f e r to km kf = record {
    answer = λ db. (continue_quiet (m db).0 f (m db).1 kf).0 ∙ km.answer db;
    board = λ db e' r'. (continue_quiet (m db).0 f (m db).1 kf).1 e' r' ∙ km.board db e' r';
  }

pub IsQuiet-when : (b : Bool) (m : Tx (Unit {0})) → IsQuiet m → IsQuiet (when b m)
unfolding when
IsQuiet-when true m k = k
IsQuiet-when false m k = IsQuiet-pure tt

pub IsQuiet-if :
    {A : Type 0} (b : Bool) (m n : Tx A) → IsQuiet m → IsQuiet n → IsQuiet (if b then m else n)
IsQuiet-if true m n km kn = km
IsQuiet-if false m n km kn = kn

-- Quiet code moves nothing.
pub Moves-none : {A : Type 0} (m : Tx A) (e r : ℕ) → IsQuiet m → Moves m e r none
Moves-none m e r k = record { answer = k.answer; board = k.board }

pub Moves-apply_transition :
    (now : ℕ) (t : Transition)
    → Moves (apply_transition now t) t.entry_id t.repository_id (some t.to_status)
Moves-apply_transition now t = record {
  answer = λ db. (board-apply_transition now t db).0;
  board = λ db e r. ground (arith, (board-apply_transition now t db).1 e r);
}

-- The transaction around a move: a refused one leaves the database as it was.
pub session_scope_move :
    {A : Type 0} (m : Tx A) (e r : ℕ) (to : Option Status) (db : Database)
    → Moves m e r to
    → permits (status_of db.coverage e r) to ≡ false
    → (is_ok (session_scope m db).0 ≡ false) × ((session_scope m db).1 ≡ db)
unfolding session_scope
session_scope_move {A} m e r to db k denied = go (m db).0 (m db).1 (k.answer db ∙ denied)
  where
    go :
        (x : Result A) (db' : Database)
        → is_ok x ≡ false
        → (is_ok (settle x db db').0 ≡ false) × ((settle x db db').1 ≡ db)
    go (ok a) db' h = cc
    go (err x) db' h = (refl, refl)

settled :
    {A : Type 0} (x : Result A) (db db' : Database) (e r : ℕ) (to : Option Status)
    → is_ok x ≡ permits (status_of db.coverage e r) to
    → (e' r' : ℕ)
    → status_of db'.coverage e' r' ≡ (
        if permits (status_of db.coverage e r) to
        then after to (status_of db.coverage e' r') (e == e' && r == r')
        else status_of db.coverage e' r')
    → (is_ok (settle x db db').0 ≡ permits (status_of db.coverage e r) to)
      × (status_of (settle x db db').1.coverage e' r' ≡ (
          if permits (status_of db.coverage e r) to
          then after to (status_of db.coverage e' r') (e == e' && r == r')
          else status_of db.coverage e' r'))
settled (ok a) db db' e r to h e' r' k = (h, k)
settled (err x) db db' e r to h e' r' k = (h, rw (← h))

-- A move keeps its effect when it is a transaction.
pub Moves-session_scope :
    {A : Type 0} (m : Tx A) (e r : ℕ) (to : Option Status)
    → Moves m e r to
    → Moves (session_scope m) e r to
unfolding session_scope
Moves-session_scope m e r to k = record {
  answer = λ db. (settled (m db).0 db (m db).1 e r to (k.answer db) e r (k.board db e r)).0;
  board =
      λ db e' r'. (settled (m db).0 db (m db).1 e r to (k.answer db) e' r' (k.board db e' r')).1;
}

refused_continue :
    {A B : Type 0} (x : Result A) (f : A → Tx B) (db : Database)
    → is_ok x ≡ false
    → (is_ok (continue x f db).0 ≡ false) × ((continue x f db).1 ≡ db)
refused_continue (ok a) f db h = cc
refused_continue (err e) f db h = (refl, refl)

-- What follows an exception is not run.
pub refused-bind :
    {A B : Type 0} (m : Tx A) (f : A → Tx B) (db : Database)
    → (is_ok (m db).0 ≡ false) × ((m db).1 ≡ db)
    → (is_ok ((m >>= f) db).0 ≡ false) × (((m >>= f) db).1 ≡ db)
unfolding ◌>>=◌
refused-bind m f db h = let (e, p) = refused_continue (m db).0 f (m db).1 h.0 in (e, p ∙ h.1)

pub ruleset quiet_rules = (
  IsQuiet-pure, IsQuiet-gets, IsQuiet-lift, IsQuiet-change, IsQuiet-bind, IsQuiet-when, IsQuiet-if,
)
