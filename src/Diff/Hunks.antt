-- ===== src/Diff/Hunks.antt =====
-- parse_hunks of core/diffapply.py: the hunks of a unified diff, with the path of their file.
use patchline.Prelude.{
  ℕ, ◌+◌, ◌-◌, ◌*◌, Bool, true, false, ◌&&◌, ◌||◌, Option, none, some, List, [], ◌∷◌, ◌++◌, Text,
  text, ◌==◌, leb, starts_with, drop, strip, before, if◌then◌else◌,
}
use patchline.Diff.Lines.{split_lines}

abbrev pub is_digit : ℕ → Bool
is_digit c = leb b'0' c && leb c b'9'

-- A run of digits, and what follows it. The pattern's \d is taken as an ASCII digit.
unfoldable pub digits : ℕ → Text → ℕ × Text
digits n [] = (n, [])
digits n (c ∷ s) =
    let rest = digits (n * 10 + (c - b'0')) s in if is_digit c then rest else (n, c ∷ s)

-- \d+
unfoldable pub number : Text → Option (ℕ × Text)
unfolding digits
number [] = none
number (c ∷ s) = if is_digit c then some (digits 0 (c ∷ s)) else none

-- A literal part of the pattern.
unfoldable pub expect : Text → Text → Option Text
expect [] s = some s
expect (c ∷ p) [] = none
expect (c ∷ p) (d ∷ s) = let rest = expect p s in if c == d then rest else none

abbrev after_comma : Option (ℕ × Text) → Text → Text
after_comma none s = s
after_comma (some (n, rest)) s = rest

-- (?:,(\d+))?
unfoldable pub skip_count : Text → Text
unfolding number
skip_count [] = []
skip_count (c ∷ s) = if c == b',' then after_comma (number s) (c ∷ s) else c ∷ s

infixl 10 ◌>>=◌
abbrev ◌>>=◌ : {A B : Type 0} → Option A → (A → Option B) → Option B
none >>= f = none
some a >>= f = f a

-- _HUNK_RE: the first number of a line that begins "@@ -l,s +l,s @@".
unfoldable pub hunk_start : Text → Option ℕ
unfolding expect number skip_count
hunk_start line = do
  a ← expect (text "@@ -") line
  b ← number a
  c ← expect (text " +") (skip_count b.1)
  d ← number c
  e ← expect (text " @@") (skip_count d.1)
  some b.0

-- `rest.strip().split("\t", 1)[0]`, less a leading "b/"
unfoldable pub path_of : Text → Text
unfolding strip before starts_with
path_of line =
    let path = before 9 (strip (drop 3 line)) in
    if starts_with (text "b/") path then drop 2 path else path

pub record Hunk : Type 0 where
  pub new_path : Text
  pub old_start : ℕ
  pub body : List Text

-- The variables of the loop.
pub record Parse : Type 0 where
  pub hunks : List Hunk
  pub new_path : Option Text
  pub old_start : Option ℕ
  pub body : List Text

abbrev or_empty : Option Text → Text
or_empty none = []
or_empty (some path) = path

-- `if old_start is not None: hunks.append((new_path or "", old_start, body))`
unfoldable pub close : Parse → List Hunk
close p = elim p.old_start [
  | none ↦ p.hunks
  | some start ↦
      p.hunks ++ record { new_path = or_empty p.new_path; old_start = start; body = p.body } ∷ []
]

abbrev is_body : Text → Bool
is_body [] = true
is_body (c ∷ s) = c == b' ' || c == b'+' || c == b'-'

abbrev is_note : Text → Bool
is_note [] = false
is_note (c ∷ s) = c == 92

-- A line that is neither a file header nor a hunk header, inside a hunk or outside one.
unfoldable pub body_line : Option ℕ → Text → Parse → Parse
unfolding close
body_line none line p = p
body_line (some start) line p =
    if is_body line
    then record p { body = p.body ++ line ∷ [] }
    else if is_note line
    then p
    else record p { hunks = close p; old_start = none; body = [] }

unfoldable pub other_line : Option ℕ → Text → Parse → Parse
unfolding body_line
other_line (some start) line p = record p { hunks = close p; old_start = some start; body = [] }
other_line none line p = body_line p.old_start line p

-- One round of the loop.
unfoldable pub read_line : Text → Parse → Parse
unfolding other_line
read_line line p =
    if starts_with (text "+++") line
    then record p { new_path = some (path_of line) }
    else other_line (hunk_start line) line p

unfoldable pub read_lines : List Text → Parse → Parse
unfolding read_line
read_lines [] p = p
read_lines (line ∷ lines) p = read_lines lines (read_line line p)

abbrev pub no_parse : Parse
no_parse = record { hunks = []; new_path = none; old_start = none; body = [] }

unfoldable pub parse_hunks : Text → List Hunk
unfolding read_lines close
parse_hunks diff_text = close (read_lines (split_lines diff_text) no_parse)
