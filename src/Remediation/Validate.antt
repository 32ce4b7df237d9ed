-- ===== src/Remediation/Validate.antt =====
-- The checks of a diff before it is offered: its structure, and the syntax of the files that it makes. The
-- parser of the package unidiff and the files of the archive are parameters.
use patchline.Prelude.{
  ℕ, Bool, not, ◌||◌, Option, none, some, List, [], ◌∷◌, ◌++◌, Text, text, any, strip, take,
  reverse, contains, starts_with, is_empty, show, if◌then◌else◌,
}
use patchline.Languages.{LanguagePack, SyntaxResult}
use patchline.Diff.Files.{Original, contents, missing, undecodable, per_file_diffs}
use patchline.Diff.Apply.{Applied, ok, err, ApplyError, apply_unified_diff}

-- What `unidiff.PatchSet` gives: an exception, or its files, each with the repr of its path and whether it
-- has hunks.
pub data PatchSet : Type 0 where
  raised : Text → PatchSet
  files : List (Text × Bool) → PatchSet

abbrev pub malformed_diff_message : Text
malformed_diff_message = text "engine returned malformed diff"

abbrev pub empty_diff_message : Text
empty_diff_message = text "engine returned empty diff"

unfoldable pub check_files : List (Text × Bool) → Option Text
check_files [] = none
check_files ((path, has_hunks) ∷ rest) =
    let later = check_files rest in
    if has_hunks
    then later
    else some (malformed_diff_message ++ text ": file " ++ path ++ text " has no hunks")

unfoldable pub check_patch_set : PatchSet → Option Text
unfolding check_files
check_patch_set (raised message) = some (malformed_diff_message ++ text ": " ++ message)
check_patch_set (files []) = some malformed_diff_message
check_patch_set (files (f ∷ rest)) = check_files (f ∷ rest)

-- Without the package, the presence of the headers is all that is checked.
unfoldable pub check_package : Option (Text → PatchSet) → Text → Option Text
unfolding check_patch_set
check_package none diff_text = none
check_package (some unidiff) diff_text = check_patch_set (unidiff diff_text)

-- The error of a diff's structure, if it has one.
unfoldable pub validate_diff_structure : Option (Text → PatchSet) → Text → Option Text
unfolding is_empty strip contains check_package
validate_diff_structure unidiff diff_text =
    if is_empty (strip diff_text)
    then some empty_diff_message
    else (if not (contains (text "@@") diff_text) || not (contains (text "+++") diff_text)
        then some malformed_diff_message
        else check_package unidiff diff_text)

-- How the check of the files ends: with an error or without, or by an exception that it does not handle.
pub data Checked : Type 0 where
  valid : Checked
  invalid : Text → Checked
  decode_error : Checked

-- s.endswith(p)
unfoldable pub ends_with : Text → Text → Bool
unfolding starts_with
ends_with p s = starts_with (reverse p) (reverse s)

abbrev location : Option ℕ → Option ℕ → Text
location none offset = []
location (some n) none = text " (line " ++ show n ++ text ")"
location (some n) (some k) = text " (line " ++ show n ++ text ", column " ++ show k ++ text ")"

abbrev or_syntax_error : Option Text → Text
or_syntax_error (some (c ∷ s)) = c ∷ s
or_syntax_error _ = text "syntax error"

abbrev offending_text : Option Text → Text
unfolding strip
offending_text none = []
offending_text (some []) = []
offending_text (some (c ∷ s)) = text " — offending text: " ++ take 200 (strip (c ∷ s))

unfoldable pub syntax_message : Text → SyntaxResult → Text
unfolding offending_text show
syntax_message path r =
    path
    ++ location r.lineno r.offset
    ++ text ": "
    ++ or_syntax_error r.error
    ++ offending_text r.offending

unfoldable pub check_syntax : Text → SyntaxResult → Checked
unfolding syntax_message
check_syntax path r = if r.valid then valid else invalid (syntax_message path r)

-- The text of a DiffApplyError is a parameter.
unfoldable pub check_applied : (ApplyError → Text) → LanguagePack → Text → Applied Text → Checked
unfolding check_syntax
check_applied describe pack path (err e) =
    invalid (text "could not reconstruct " ++ path ++ text ": " ++ describe e)
check_applied describe pack path (ok patched) = check_syntax path (pack.parse_syntax patched)

-- reconstruct_patched_file
unfoldable pub reconstruct_patched_file : Text → Text → Applied Text
unfolding apply_unified_diff
reconstruct_patched_file original file_diff = apply_unified_diff original file_diff

unfoldable pub check_file : (ApplyError → Text) → LanguagePack → Text → Text → Original → Checked
unfolding check_applied reconstruct_patched_file
check_file describe pack path file_diff (contents original) =
    check_applied describe pack path (reconstruct_patched_file original file_diff)
check_file describe pack path file_diff missing =
    check_applied describe pack path (reconstruct_patched_file [] file_diff)
check_file describe pack path file_diff (undecodable message) = decode_error

abbrev first_error : Checked → Checked → Checked
first_error valid later = later
first_error (invalid message) later = invalid message
first_error decode_error later = decode_error

-- A file with another extension is not looked at.
unfoldable pub check_all :
    (ApplyError → Text) → LanguagePack → (Text → Original) → List (Text × Text) → Checked
unfolding any ends_with check_file
check_all describe pack archive [] = valid
check_all describe pack archive ((path, file_diff) ∷ rest) =
    let later = check_all describe pack archive rest in
    if any (λ e. ends_with e path) pack.file_extensions
    then first_error (check_file describe pack path file_diff (archive path)) later
    else later

unfoldable pub syntax_validate_remediation :
    (ApplyError → Text) → Option LanguagePack → (Text → Original) → Text → Checked
unfolding check_all per_file_diffs
syntax_validate_remediation describe none archive diff_text = valid
syntax_validate_remediation describe (some pack) archive diff_text =
    check_all describe pack archive (per_file_diffs diff_text)
