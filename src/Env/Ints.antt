-- ===== src/Env/Ints.antt =====
-- The integers of src/patchline/config.py: `_env_int` and Python's int() on ASCII text, without its limit
-- on the number of digits.
use patchline.Prelude.{
  ℕ, zero, suc, ◌+◌, ◌*◌, ◌-◌, Bool, true, false, ◌&&◌, ◌||◌, Option, none, some, [], ◌∷◌, Text,
  ◌==◌, leb, ltb, strip, or_blank, if◌then◌else◌,
}
use patchline.Env.{Env}

-- `negsuc n` is -(n + 1).
pub data ℤ : Type 0 where
  pos negsuc : ℕ → ℤ

abbrev is_digit : ℕ → Bool
is_digit c = leb b'0' c && leb c b'9'

-- Digits, with single underscores between them. The flag says that the last character was a digit.
unfoldable pub read_digits : Bool → ℕ → Text → Option ℕ
read_digits true value [] = some value
read_digits false value [] = none
read_digits was_digit value (c ∷ s) =
    let rest = read_digits (is_digit c) (if is_digit c then value * 10 + (c - b'0') else value) s in
    if is_digit c || (was_digit && c == b'_') then rest else none

abbrev negated : ℕ → ℤ
negated zero = pos zero
negated (suc n) = negsuc n

abbrev signed : Bool → Option ℕ → Option ℤ
signed negative none = none
signed true (some n) = some (negated n)
signed false (some n) = some (pos n)

-- int(s) of a stripped text, none for a ValueError
unfoldable pub int_of : Text → Option ℤ
unfolding read_digits
int_of [] = none
int_of (c ∷ s) =
    if c == b'-'
    then signed true (read_digits false 0 s)
    else (if c == b'+'
        then signed false (read_digits false 0 s)
        else signed false (read_digits false 0 (c ∷ s)))

abbrev or_default : ℤ → Option ℤ → ℤ
or_default default none = default
or_default default (some z) = z

unfoldable pub env_int : Env → Text → ℤ → ℤ
unfolding strip int_of
env_int env name default = or_default default (int_of (strip (or_blank (env.environ name))))

-- `z or default`
abbrev pub or_int : ℤ → ℤ → ℤ
or_int (pos zero) default = default
or_int (pos (suc n)) default = pos (suc n)
or_int (negsuc n) default = negsuc n

-- `n > z`
unfoldable pub exceeds : ℕ → ℤ → Bool
exceeds n (pos k) = ltb k n
exceeds n (negsuc k) = true

-- `now - then > z`, also where the clock was set back
unfoldable pub is_past_age : ℕ → ℕ → ℤ → Bool
is_past_age now then_at (pos age) = ltb (then_at + age) now
is_past_age now then_at (negsuc k) = ltb then_at (now + suc k)
