-- ===== src/Diff/Lines.antt =====
-- str.splitlines, with and without the line ends.
use patchline.Prelude.{
  ℕ, Bool, false, not, ◌&&◌, ◌||◌, List, [], ◌∷◌, ◌++◌, map, Text, ◌==◌, leb, rstrip, is_empty,
  if◌then◌else◌,
}

-- The line boundaries of str.splitlines.
unfoldable pub is_break : ℕ → Bool
is_break c =
    (leb 10 c && leb c 13) || (leb 28 c && leb c 30) || c == 0x85 || c == 0x2028 || c == 0x2029

abbrev starts_newline : Text → Bool
starts_newline [] = false
starts_newline (c ∷ s) = c == 10

-- Is this the end of a line, before the rest `s`? The pair "\r\n" is one boundary.
unfoldable pub ends_line : ℕ → Text → Bool
unfolding is_break
ends_line c s = is_break c && not (c == 13 && starts_newline s)

abbrev push : ℕ → List Text → List Text
push c [] = (c ∷ []) ∷ []
push c (line ∷ lines) = (c ∷ line) ∷ lines

-- s.splitlines(keepends=True)
unfoldable pub split_keep : Text → List Text
unfolding ends_line
split_keep [] = []
split_keep (c ∷ s) =
    let rest = split_keep s in if ends_line c s then (c ∷ []) ∷ rest else push c rest

-- A line without its line end.
unfoldable pub chomp : Text → Text
unfolding is_break
chomp [] = []
chomp (c ∷ s) =
    let rest = chomp s in
    if is_break c && is_empty s
    then []
    else if c == 13 && starts_newline s && is_empty rest
    then []
    else c ∷ rest

-- s.splitlines()
unfoldable pub split_lines : Text → List Text
unfolding split_keep chomp is_empty
split_lines s = map chomp (split_keep s)

-- "".join(lines)
abbrev pub concat : List Text → Text
concat [] = []
concat (line ∷ lines) = line ++ concat lines

-- sep.join(lines) for a separator of one character
unfoldable pub join : ℕ → List Text → Text
join c [] = []
join c (line ∷ []) = line
join c (line ∷ next ∷ lines) = line ++ c ∷ join c (next ∷ lines)

-- s.rstrip("\n")
unfoldable pub rstrip_newline : Text → Text
unfolding rstrip
rstrip_newline s = rstrip (λ c. c == 10) s
