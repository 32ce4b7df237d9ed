-- ===== src/Diff/Misplaced.antt =====
-- Where apply_unified_diff puts the lines of a hunk that has no line of the original.
use patchline.Prelude.{ℕ, ◌+◌, ◌≡◌, refl, ap, ◌∙◌, List, [], ◌∷◌, ◌++◌, Text, length, map, arith}
use patchline.Diff.Lines.{concat}
use patchline.Diff.Hunks.{Hunk}
use patchline.Diff.Apply.{ok, with_newline, apply_all}
use patchline.Diff.RoundTrip.{add, Stretch, old_lines, new_lines, render, apply_all-hunks_of}

-- The hunk of a unified diff that puts lines behind line `k`, `@@ -k,0 +… @@`.
abbrev pub insertion_behind : Text → ℕ → List Text → Hunk
insertion_behind path k added = record {
  new_path = path;
  old_start = k;
  body = render (map add added);
}

old_lines-add : (added : List Text) → old_lines (map add added) ≡ []
old_lines-add [] = refl
old_lines-add (t ∷ added) = old_lines-add added

new_lines-add : (added : List Text) → new_lines (map add added) ≡ map with_newline added
new_lines-add [] = refl
new_lines-add (t ∷ added) = ap (λ l. with_newline t ∷ l) (new_lines-add added)

-- In a unified diff a hunk without old lines has the number of the line behind which its lines belong. They
-- are put in front of that line, whatever the lines are, and no error is raised.
pub insertion_misplaced :
    (path : Text) (above : List Text) (line : Text) (below added : List Text)
    → apply_all (above ++ line ∷ below) (insertion_behind path (length above + 1) added ∷ [])
      ≡ ok (concat (above ++ (map with_newline added ++ line ∷ below)))
insertion_misplaced path above line below added =
    let s : Stretch = record { gap = above; edits = map add added } in
    let start : length above + 1 ≡ 0 + length above + 1 = omega arith in
    ap (λ n. apply_all (above ++ line ∷ below) (insertion_behind path n added ∷ [])) start
    ∙ (rw (old_lines-add added, new_lines-add added) at
        (apply_all-hunks_of path s [] (line ∷ below)))
