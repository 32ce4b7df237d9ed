-- ===== src/Diff/Files.antt =====
-- files_in_diff and per_file_diffs of core/diffapply.py: a diff of several files, taken apart.
use patchline.Prelude.{
  Bool, Option, none, some, List, [], ◌∷◌, ◌++◌, Text, text, same, any, starts_with, if◌then◌else◌,
}
use patchline.Diff.Lines.{split_lines, join}
use patchline.Diff.Hunks.{path_of}

-- A file of an unpacked archive: its text, or nothing where it cannot be opened, or bytes that are no UTF-8,
-- with the text of that exception.
pub data Original : Type 0 where
  contents : Text → Original
  missing : Original
  undecodable : Text → Original

-- Is the path in the list?
abbrev seen : Text → List Text → Bool
seen path paths = any (λ p. same p path) paths

unfoldable pub add_file : Text → List Text → List Text
add_file line paths =
    if starts_with (text "+++") line
    then (if seen (path_of line) paths then paths else paths ++ path_of line ∷ [])
    else paths

unfoldable pub collect_files : List Text → List Text → List Text
unfolding add_file
collect_files [] paths = paths
collect_files (line ∷ lines) paths = collect_files lines (add_file line paths)

unfoldable pub files_in_diff : Text → List Text
unfolding collect_files
files_in_diff diff_text = collect_files (split_lines diff_text) []

-- result[path] = value: a known key keeps its place.
unfoldable pub put_file : Text → Text → List (Text × Text) → List (Text × Text)
put_file path value [] = (path, value) ∷ []
put_file path value ((p, v) ∷ files) =
    if same p path then (p, value) ∷ files else (p, v) ∷ put_file path value files

-- The variables of the loop of per_file_diffs.
pub record Split : Type 0 where
  pub result : List (Text × Text)
  pub current : Option Text
  pub buffer : List Text

-- `if current is not None and buf: result[current] = "\n".join(buf)`
unfoldable pub flush : Option Text → List Text → List (Text × Text) → List (Text × Text)
unfolding put_file
flush none buffer result = result
flush (some path) [] result = result
flush (some path) (line ∷ buffer) result = put_file path (join 10 (line ∷ buffer)) result

abbrev keep_line : Option Text → Text → List Text → List Text
keep_line none line buffer = buffer
keep_line (some path) line buffer = buffer ++ line ∷ []

unfoldable pub split_line : Text → Split → Split
unfolding flush
split_line line s =
    if starts_with (text "---") line
    then record { result = flush s.current s.buffer s.result; current = none; buffer = line ∷ [] }
    else if starts_with (text "+++") line
    then record s { current = some (path_of line); buffer = s.buffer ++ line ∷ [] }
    else record s { buffer = keep_line s.current line s.buffer }

unfoldable pub split_all : List Text → Split → Split
unfolding split_line
split_all [] s = s
split_all (line ∷ lines) s = split_all lines (split_line line s)

unfoldable pub per_file_diffs : Text → List (Text × Text)
unfolding split_all flush
per_file_diffs diff_text =
    let s =
      split_all (split_lines diff_text) (record { result = []; current = none; buffer = [] }) in
    flush s.current s.buffer s.result
