-- ===== src/Diff/RoundTrip.antt =====
-- Applying a diff gives the text that the diff was made for. An edit script says, for stretches of the
-- original, which lines are kept, removed and added; it has an old side, a new side and its hunks.
use patchline.Prelude.{
  ℕ, ◌+◌, ◌-◌, ◌≡◌, refl, ◌∙◌, ap, true, false, List, [], ◌∷◌, ◌++◌, Text, ltb, same_refl, take,
  drop, length, length-append, append-nil, append_assoc, arith, is_empty, rstrip, some,
}
use patchline.Diff.Lines.{rstrip_newline, concat}
use patchline.Diff.Hunks.{Hunk}
use patchline.Diff.Apply.{
  ok, get_elem?, with_newline, matches, context_line, removal_line, apply_line, apply_body,
  apply_hunks, apply_all,
}

pub data Edit : Type 0 where
  keep remove add : Text → Edit

-- A line with its end.
abbrev pub full : Text → Text
full t = t ++ 10 ∷ []

-- The lines of the original that the edits stand for.
abbrev pub old_lines : List Edit → List Text
old_lines [] = []
old_lines (keep t ∷ es) = full t ∷ old_lines es
old_lines (remove t ∷ es) = full t ∷ old_lines es
old_lines (add t ∷ es) = old_lines es

-- The lines that they leave.
abbrev pub new_lines : List Edit → List Text
new_lines [] = []
new_lines (keep t ∷ es) = full t ∷ new_lines es
new_lines (remove t ∷ es) = new_lines es
new_lines (add t ∷ es) = with_newline t ∷ new_lines es

-- The lines of the hunk.
abbrev pub render : List Edit → List Text
render [] = []
render (keep t ∷ es) = (b' ' ∷ t) ∷ render es
render (remove t ∷ es) = (b'-' ∷ t) ∷ render es
render (add t ∷ es) = (b'+' ∷ t) ∷ render es

-- Lines that no hunk shows, and then the edits of one hunk.
pub record Stretch : Type 0 where
  pub gap : List Text
  pub edits : List Edit

abbrev pub original : List Stretch → List Text → List Text
original [] tail = tail
original (s ∷ ss) tail = s.gap ++ (old_lines s.edits ++ original ss tail)

abbrev pub patched : List Stretch → List Text → List Text
patched [] tail = tail
patched (s ∷ ss) tail = s.gap ++ (new_lines s.edits ++ patched ss tail)

-- The hunks, each with the number of the line behind its gap, where `pos` lines of the original stand
-- above the first gap. A unified diff gives a hunk without old lines the number before (see Misplaced).
abbrev pub hunks_of : Text → ℕ → List Stretch → List Hunk
hunks_of path pos [] = []
hunks_of path pos (s ∷ ss) =
    record { new_path = path; old_start = pos + length s.gap + 1; body = render s.edits }
    ∷ hunks_of path (pos + length s.gap + length (old_lines s.edits)) ss

rstrip-full : (t : Text) → rstrip_newline (full t) ≡ rstrip_newline t
unfolding rstrip_newline rstrip is_empty
rstrip-full [] = refl
rstrip-full (c ∷ t) = rw (rstrip-full t)

matches-full : (t : Text) → matches (full t) t ≡ true
matches-full t = rw rstrip-full (same_refl (rstrip_newline t))

module _ {A : Type 0} where
  get_elem?-append :
      (pre : List A) (x : A) (post : List A) → get_elem? (pre ++ x ∷ post) (length pre) ≡ some x
  get_elem?-append [] x post = refl
  get_elem?-append (y ∷ pre) x post = get_elem?-append pre x post

  drop-append : (pre xs : List A) → drop (length pre) (pre ++ xs) ≡ xs
  drop-append [] xs = refl
  drop-append (y ∷ pre) xs = drop-append pre xs

  take-append : (pre xs : List A) → take (length pre) (pre ++ xs) ≡ pre
  take-append [] xs = refl
  take-append (y ∷ pre) xs = ap (λ l. y ∷ l) (take-append pre xs)

  snoc : (pre : List A) (x : A) (post : List A) → (pre ++ x ∷ []) ++ post ≡ pre ++ x ∷ post
  snoc pre x post = append_assoc pre (x ∷ []) post

  length-snoc : (pre : List A) (x : A) → length (pre ++ x ∷ []) ≡ length pre + 1
  length-snoc pre x = omega (arith, length-append pre (x ∷ []))

-- One hunk, applied where its edits stand.
apply_body-render :
    (es : List Edit) (pre post out : List Text)
    → apply_body (pre ++ (old_lines es ++ post)) (render es) (length pre) out
      ≡ ok (length pre + length (old_lines es), out ++ new_lines es)
unfolding apply_body apply_line context_line removal_line
apply_body-render [] pre post out = rw (append-nil out) (ap (λ (n : ℕ). ok (n, out)) (omega arith))
apply_body-render (keep t ∷ es) pre post out =
    rw (get_elem?-append pre (full t) (old_lines es ++ post), matches-full t)
      ((rw
          (
            snoc pre (full t) (old_lines es ++ post),
            length-snoc pre (full t),
            snoc out (full t) (new_lines es),
          )
          at (apply_body-render es (pre ++ full t ∷ []) post (out ++ full t ∷ [])))
        ∙ ap (λ (n : ℕ). ok (n, out ++ full t ∷ new_lines es)) (omega arith))
apply_body-render (remove t ∷ es) pre post out =
    rw (get_elem?-append pre (full t) (old_lines es ++ post), matches-full t)
      ((rw (snoc pre (full t) (old_lines es ++ post), length-snoc pre (full t)) at
          (apply_body-render es (pre ++ full t ∷ []) post out))
        ∙ ap (λ (n : ℕ). ok (n, out ++ new_lines es)) (omega arith))
apply_body-render (add t ∷ es) pre post out =
    rw (snoc out (with_newline t) (new_lines es)) at
      (apply_body-render es pre post (out ++ with_newline t ∷ []))

regroup : (pre a b c : List Text) → (pre ++ (a ++ b)) ++ c ≡ pre ++ (a ++ (b ++ c))
regroup pre a b c = append_assoc pre (a ++ b) c ∙ ap (λ l. pre ++ l) (append_assoc a b c)

length-regroup : (pre a b : List Text) → length (pre ++ (a ++ b)) ≡ length pre + length a + length b
length-regroup pre a b = omega (arith, length-append pre (a ++ b), length-append a b)

-- The first hunk, below the lines that are done and its gap.
body_of :
    (s : Stretch) (ss : List Stretch) (pre tail out : List Text)
    → apply_body
        (pre ++ (s.gap ++ (old_lines s.edits ++ original ss tail)))
        (render s.edits)
        (length pre + length s.gap)
        (out ++ s.gap)
      ≡ ok (
        length pre + length s.gap + length (old_lines s.edits),
        (out ++ s.gap) ++ new_lines s.edits,
      )
body_of s ss pre tail out =
    rw (append_assoc pre s.gap (old_lines s.edits ++ original ss tail), length-append pre s.gap) at
      (apply_body-render s.edits (pre ++ s.gap) (original ss tail) (out ++ s.gap))

-- Any number of hunks, below `pre` lines that are done.
apply_hunks-hunks_of :
    (path : Text) (ss : List Stretch) (pre tail out : List Text)
    → apply_hunks (pre ++ original ss tail) (hunks_of path (length pre) ss) (length pre) out
      ≡ ok (out ++ patched ss tail)
unfolding apply_hunks
apply_hunks-hunks_of path [] pre tail out = rw (drop-append pre tail)
apply_hunks-hunks_of path (s ∷ ss) pre tail out =
    let start : length pre + length s.gap + 1 - 1 ≡ length pre + length s.gap = omega arith in
    let within : ltb (length pre + length s.gap) (length pre) ≡ false = ground arith in
    let size : length pre + length s.gap - length pre ≡ length s.gap = omega arith in
    rw
      (
        start,
        within,
        size,
        drop-append pre (s.gap ++ (old_lines s.edits ++ original ss tail)),
        take-append s.gap (old_lines s.edits ++ original ss tail),
      )
      (rw (body_of s ss pre tail out) (
        (rw
          (
            regroup pre s.gap (old_lines s.edits) (original ss tail),
            length-regroup pre s.gap (old_lines s.edits),
          )
          at
          (apply_hunks-hunks_of path ss (pre ++ (s.gap ++ old_lines s.edits)) tail
            ((out ++ s.gap) ++ new_lines s.edits)))
        ∙ ap ok (
            append_assoc (out ++ s.gap) (new_lines s.edits) (patched ss tail)
            ∙ append_assoc out s.gap (new_lines s.edits ++ patched ss tail))))

-- The whole of apply_unified_diff behind the parser: the hunks of an edit script, each with the number of
-- the line behind its gap, give its new side when applied to its old side, whatever the lines of the script hold and however many hunks there are. No
-- hunk at all is an error.
pub apply_all-hunks_of :
    (path : Text) (s : Stretch) (ss : List Stretch) (tail : List Text)
    → apply_all (original (s ∷ ss) tail) (hunks_of path 0 (s ∷ ss))
      ≡ ok (concat (patched (s ∷ ss) tail))
unfolding apply_all
apply_all-hunks_of path s ss tail = rw (apply_hunks-hunks_of path (s ∷ ss) [] tail [])
