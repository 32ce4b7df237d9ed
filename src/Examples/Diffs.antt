-- ===== src/Examples/Diffs.antt =====
-- The theorems on diffs at concrete inputs.
use patchline.Prelude.{◌≡◌, ◌≢◌, [], ◌∷◌, Text, text, same, same_iff, true, false}
use patchline.Diff.Lines.{concat}
use patchline.Diff.Misplaced.{insertion_behind, insertion_misplaced}
use patchline.Diff.Apply.{with_newline, ok, apply_all}
use patchline.Diff.Hash.{Section, canonical}
use patchline.Diff.RoundTrip.{
  keep, remove, add, Stretch, original, patched, hunks_of, apply_all-hunks_of,
}
use patchline.Diff.Order.{canonical-swap}

abbrev line : Text
line = text "pass\n"

-- A call is renamed behind a line that no hunk shows.
abbrev renamed : Stretch
renamed = record {
  gap = line ∷ [];
  edits = keep (text "x = 1") ∷ remove (text "get_user(x)") ∷ add (text "get_user_by_id(x)") ∷ [];
}

apply_all-hunks_of_example :
    apply_all (original (renamed ∷ []) (line ∷ [])) (hunks_of (text "app.py") 0 (renamed ∷ []))
    ≡ ok (concat (patched (renamed ∷ []) (line ∷ [])))
apply_all-hunks_of_example = apply_all-hunks_of (text "app.py") renamed [] (line ∷ [])

abbrev section_a : Section
section_a = (text "a.py", text "+++ b/a.py" ∷ text "+x" ∷ [])

abbrev section_b : Section
section_b = (text "b.py", text "+++ b/b.py" ∷ text "+y" ∷ [])

paths_differ : section_a.0 ≢ section_b.0
unfolding text same
paths_differ h = let k : false ≡ true = (same_iff section_a.0 section_b.0).1 h in cc

canonical-swap_example :
    canonical (section_a ∷ section_b ∷ []) ≡ canonical (section_b ∷ section_a ∷ [])
canonical-swap_example = canonical-swap section_a section_b [] [] paths_differ

insertion_misplaced_example :
    apply_all
      (line ∷ text "x = 1\n" ∷ line ∷ [])
      (insertion_behind (text "app.py") 2 (text "y = 2" ∷ []) ∷ [])
    ≡ ok (concat (line ∷ text "y = 2\n" ∷ text "x = 1\n" ∷ line ∷ []))
unfolding text with_newline
insertion_misplaced_example =
    insertion_misplaced (text "app.py") (line ∷ []) (text "x = 1\n") (line ∷ []) (text "y = 2" ∷ [])
