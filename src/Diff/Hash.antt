-- ===== src/Diff/Hash.antt =====
-- The canonical form of a diff and its hash (src/patchline/core/diffhash.py). SHA-256 is a parameter.
use patchline.Prelude.{
  Bool, true, false, ◌||◌, Option, none, some, List, [], ◌∷◌, ◌++◌, map, Text, text, ◌==◌, same,
  starts_with, strip, before, drop, text_le, sort_by, if◌then◌else◌,
}
use patchline.Diff.Lines.{split_lines, join, rstrip_newline}

-- The two markers.
abbrev pub minuses : Text
minuses = text "---"

abbrev pub pluses : Text
pluses = text "+++"

-- _is_header
unfoldable pub is_header : Text → Text → Bool
is_header line marker = starts_with (marker ++ b' ' ∷ []) line || same line marker

-- _header_path, for a marker of three characters
unfoldable pub header_path : Text → Text
header_path line =
    let path = before b' ' (before 9 (strip (drop 3 line))) in
    if starts_with (text "a/") path || starts_with (text "b/") path then drop 2 path else path

-- _clean_header
unfoldable pub clean_header : Text → Text → Text → Text
unfolding header_path
clean_header marker prefix line = marker ++ (b' ' ∷ prefix) ++ header_path line

abbrev is_content : Text → Bool
is_content [] = false
is_content (c ∷ s) = c == b' ' || c == b'+' || c == b'-'

-- _keep_line
unfoldable pub keeps_line : Text → Bool
unfolding is_header
keeps_line line =
    is_header line minuses
    || is_header line pluses
    || starts_with (text "@@") line
    || is_content line

-- A section: the path and the lines of one file.
abbrev pub Section : Type 0
Section = Text × List Text

-- The variables of the loop of split_file_sections.
pub record Sections : Type 0 where
  pub sections : List Section
  pub current_path : Option Text
  pub current_lines : List Text
  pub pending_old : Option Text

abbrev with_pending : Option Text → List Text → List Text
with_pending none lines = lines
with_pending (some old) lines = lines ++ old ∷ []

abbrev or_empty : Option Text → Text
or_empty none = []
or_empty (some path) = path

abbrev add_section : Option Text → List Text → List Section → List Section
add_section path [] sections = sections
add_section path (line ∷ lines) sections = sections ++ (or_empty path, line ∷ lines) ∷ []

-- Is a section open: a path, or an old header that waits?
abbrev is_open : Option Text → Option Text → Bool
is_open none none = false
is_open _ _ = true

unfoldable pub close_section : Sections → List Section
close_section s =
    if is_open s.current_path s.pending_old
    then add_section s.current_path (with_pending s.pending_old s.current_lines) s.sections
    else s.sections

abbrev add_content : Option Text → Text → List Text → List Text
add_content none line lines = lines
add_content (some path) line lines = if keeps_line line then lines ++ line ∷ [] else lines

unfoldable pub read_section_line : Text → Sections → Sections
unfolding close_section
read_section_line line s =
    if is_header line minuses
    then record {
      sections = close_section s;
      current_path = none;
      current_lines = [];
      pending_old = some line;
    }
    else if is_header line pluses
    then record s {
      current_path = some (header_path line);
      current_lines = with_pending s.pending_old s.current_lines ++ line ∷ [];
      pending_old = none;
    }
    else record s { current_lines = add_content s.current_path line s.current_lines }

unfoldable pub read_section_lines : List Text → Sections → Sections
unfolding read_section_line
read_section_lines [] s = s
read_section_lines (raw ∷ lines) s =
    read_section_lines lines (read_section_line (rstrip_newline raw) s)

unfoldable pub split_file_sections : Text → List Section
unfolding read_section_lines
split_file_sections diff_text =
    let s =
      read_section_lines (split_lines diff_text)
        (record { sections = []; current_path = none; current_lines = []; pending_old = none }) in
    add_section s.current_path (with_pending s.pending_old s.current_lines) s.sections

unfoldable pub clean_line : Text → Text
unfolding is_header clean_header
clean_line line =
    if is_header line minuses
    then clean_header minuses (text "a/") line
    else if is_header line pluses
    then clean_header pluses (text "b/") line
    else line

abbrev pub clean_section : Section → Section
clean_section s = (s.0, map clean_line s.1)

-- key=lambda item: item[0]
abbrev pub section_le : Section → Section → Bool
section_le a b = text_le a.0 b.0

abbrev pub all_lines : List Section → List Text
all_lines [] = []
all_lines (s ∷ sections) = s.1 ++ all_lines sections

-- The sections, cleaned, in the order of their paths, as one text.
unfoldable pub canonical : List Section → Text
unfolding clean_line sort_by
canonical sections = join 10 (all_lines (sort_by section_le (map clean_section sections)))

unfoldable pub canonical_diff : Text → Text
unfolding split_file_sections canonical
canonical_diff diff_text = canonical (split_file_sections diff_text)

unfoldable pub canonical_diff_sha256 : (Text → Text) → Text → Text
unfolding canonical_diff
canonical_diff_sha256 sha256 diff_text = sha256 (canonical_diff diff_text)
