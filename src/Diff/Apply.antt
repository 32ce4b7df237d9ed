-- ===== src/Diff/Apply.antt =====
-- apply_unified_diff of core/diffapply.py: the hunks of one file are applied to its text, strictly.
use patchline.Prelude.{
  ℕ, zero, suc, ◌+◌, ◌-◌, Bool, Option, none, some, List, [], ◌∷◌, ◌++◌, Text, ◌==◌, ltb, same,
  take, drop, if◌then◌else◌,
}
use patchline.Diff.Lines.{split_keep, concat, rstrip_newline}
use patchline.Diff.Hunks.{Hunk, parse_hunks}

-- The messages of DiffApplyError; the numbers are positions in the original.
pub data ApplyError : Type 0 where
  no_hunks overlapping context_beyond_end removal_beyond_end : ApplyError
  context_mismatch removal_mismatch : ℕ → ApplyError
  malformed : Text → ApplyError

pub data Applied (A : Type 0) : Type 0 where
  ok : A → Applied A
  err : ApplyError → Applied A

infixl 10 ◌>>=◌
abbrev pub ◌>>=◌ : {A B : Type 0} → Applied A → (A → Applied B) → Applied B
ok a >>= f = f a
err e >>= f = err e

-- orig_lines[pos]
abbrev pub get_elem? : {A : Type 0} → List A → ℕ → Option A
get_elem? [] i = none
get_elem? (x ∷ xs) zero = some x
get_elem? (x ∷ xs) (suc i) = get_elem? xs i

-- text if text.endswith("\n") else text + "\n"
unfoldable pub with_newline : Text → Text
with_newline [] = 10 ∷ []
with_newline (c ∷ []) = if c == 10 then c ∷ [] else c ∷ 10 ∷ []
with_newline (c ∷ d ∷ s) = c ∷ with_newline (d ∷ s)

abbrev pub matches : Text → Text → Bool
matches line body_text = same (rstrip_newline line) (rstrip_newline body_text)

-- One line of a hunk: the position in the original and the output after it.
unfoldable pub context_line : Option Text → ℕ → Text → List Text → Applied (ℕ × List Text)
context_line none pos body_text out = err context_beyond_end
context_line (some line) pos body_text out =
    if matches line body_text
    then ok (pos + 1, out ++ line ∷ [])
    else err (context_mismatch (pos + 1))

unfoldable pub removal_line : Option Text → ℕ → Text → List Text → Applied (ℕ × List Text)
removal_line none pos body_text out = err removal_beyond_end
removal_line (some line) pos body_text out =
    if matches line body_text then ok (pos + 1, out) else err (removal_mismatch (pos + 1))

unfoldable pub apply_line : List Text → Text → ℕ → List Text → Applied (ℕ × List Text)
unfolding context_line removal_line with_newline
apply_line orig [] pos out = err (malformed [])
apply_line orig (tag ∷ body_text) pos out =
    if tag == b' '
    then context_line (get_elem? orig pos) pos body_text out
    else if tag == b'-'
    then removal_line (get_elem? orig pos) pos body_text out
    else if tag == b'+'
    then ok (pos, out ++ with_newline body_text ∷ [])
    else err (malformed (tag ∷ body_text))

unfoldable pub apply_body : List Text → List Text → ℕ → List Text → Applied (ℕ × List Text)
unfolding apply_line
apply_body orig [] pos out = ok (pos, out)
apply_body orig (line ∷ body) pos out = do
  next ← apply_line orig line pos out
  apply_body orig body next.0 next.1

-- orig_lines[a:b]
abbrev pub slice : {A : Type 0} → ℕ → ℕ → List A → List A
slice a b xs = take (b - a) (drop a xs)

-- The loop over the hunks; what is behind the last one is copied at the end.
unfoldable pub apply_hunks : List Text → List Hunk → ℕ → List Text → Applied (List Text)
unfolding apply_body
apply_hunks orig [] cursor out = ok (out ++ drop cursor orig)
apply_hunks orig (h ∷ hunks) cursor out =
    let start = h.old_start - 1 in
    let rest = λ (next : ℕ × List Text). apply_hunks orig hunks next.0 next.1 in
    if ltb start cursor
    then err overlapping
    else apply_body orig h.body start (out ++ slice cursor start orig) >>= rest

unfoldable pub apply_all : List Text → List Hunk → Applied Text
unfolding apply_hunks
apply_all orig [] = err no_hunks
apply_all orig (h ∷ hunks) = do lines ← apply_hunks orig (h ∷ hunks) 0 []; ok (concat lines)

unfoldable pub apply_unified_diff : Text → Text → Applied Text
unfolding apply_all
apply_unified_diff original diff_text = apply_all (split_keep original) (parse_hunks diff_text)
