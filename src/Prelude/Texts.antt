-- ===== src/Prelude/Texts.antt =====
-- Python's `str` as the list of its code points, with the methods that the program calls.
use Prim.Native.Nat.{ℕ, zero, suc, ◌+◌, ◌/◌, ◌%◌}
use Prim.Native.Char.{code}
use Prim.Native.String.{String}
use mathlib.Core.Path.{◌≡◌, refl}
use mathlib.Core.Logic.{◌↔◌}
use mathlib.Core.Bool.{Bool, true, false, ◌&&◌, ◌||◌}
use mathlib.Core.List.{List, [], ◌∷◌, map}
use mathlib.Core.Option.{Option, none, some}
use native.Mathlib.Omega.{arith}
use patchline.Prelude.Tests.{ltb, leb, ◌==◌, if◌then◌else◌}

abbrev pub Text : Type 0
Text = List ℕ

-- The code points of a literal.
unfoldable pub text : String → Text
text String.[] = []
text (String.◌∷◌ c s) = code c ∷ text s

-- s == t
unfoldable pub same : Text → Text → Bool
same [] [] = true
same [] (c ∷ t) = false
same (c ∷ s) [] = false
same (c ∷ s) (d ∷ t) = c == d && same s t

pub same_refl : (s : Text) → same s s ≡ true
unfolding same
same_refl [] = refl
same_refl (c ∷ s) = ground (arith, same_refl s)

pub same_eq : (s t : Text) → same s t ≡ true → s ≡ t
unfolding same
same_eq [] [] h = refl
same_eq [] (c ∷ t) h = ground arith
same_eq (c ∷ s) [] h = ground arith
same_eq (c ∷ s) (d ∷ t) h = ground (arith, same_eq s t)

pub same_iff : (s t : Text) → (same s t ≡ true) ↔ (s ≡ t)
same_iff s t = (same_eq s t, λ e. rw e (same_refl t))

-- not s
unfoldable pub is_empty : Text → Bool
is_empty [] = true
is_empty (c ∷ s) = false

-- s or d
abbrev pub or_else : Text → Text → Text
or_else [] d = d
or_else (c ∷ s) d = c ∷ s

-- (s or "") for a nullable column
abbrev pub or_blank : Option Text → Text
or_blank none = []
or_blank (some s) = s

-- s.startswith(p)
unfoldable pub starts_with : Text → Text → Bool
starts_with [] s = true
starts_with (c ∷ p) [] = false
starts_with (c ∷ p) (d ∷ s) = c == d && starts_with p s

-- The white space of str.strip and str.isspace, over the code points below 0x3001.
unfoldable pub is_space : ℕ → Bool
is_space c =
    (leb 9 c && leb c 13)
    || (leb 28 c && leb c 32)
    || c == 0x85
    || c == 0xa0
    || c == 0x1680
    || (leb 0x2000 c && leb c 0x200a)
    || c == 0x2028
    || c == 0x2029
    || c == 0x202f
    || c == 0x205f
    || c == 0x3000

-- s.lstrip(chars), where `p` tells the characters to strip
unfoldable pub lstrip : (ℕ → Bool) → Text → Text
lstrip p [] = []
lstrip p (c ∷ s) = let rest = lstrip p s in if p c then rest else c ∷ s

-- s.rstrip(chars)
unfoldable pub rstrip : (ℕ → Bool) → Text → Text
rstrip p [] = []
rstrip p (c ∷ s) = let rest = rstrip p s in if p c && is_empty rest then [] else c ∷ rest

-- s.strip()
unfoldable pub strip : Text → Text
unfolding lstrip rstrip is_space is_empty
strip s = rstrip is_space (lstrip is_space s)

-- str.lower on one character. Letters outside ASCII are left as they are.
unfoldable pub lower_char : ℕ → ℕ
lower_char c = if leb b'A' c && leb c b'Z' then c + 32 else c

unfoldable pub lower : Text → Text
unfolding lower_char
lower s = map lower_char s

-- s.split(sep, 1)[0] for a separator of one character
unfoldable pub before : ℕ → Text → Text
before c [] = []
before c (d ∷ s) = let rest = before c s in if d == c then [] else d ∷ rest

-- p in s
unfoldable pub contains : Text → Text → Bool
unfolding starts_with
contains p [] = starts_with p []
contains p (c ∷ s) = starts_with p (c ∷ s) || contains p s

-- str(n), by fuel: `n` has at most `n + 1` digits.
unfoldable pub show_digits : ℕ → ℕ → Text → Text
show_digits zero n out = out
show_digits (suc f) n out =
    let rest = show_digits f (n / 10) ((n % 10 + b'0') ∷ out) in
    if ltb n 10 then (n + b'0') ∷ out else rest

unfoldable pub show : ℕ → Text
unfolding show_digits
show n = show_digits (n + 1) n []

-- s <= t, by code points
unfoldable pub text_le : Text → Text → Bool
text_le [] t = true
text_le (c ∷ s) [] = false
text_le (c ∷ s) (d ∷ t) = ltb c d || (c == d && text_le s t)
