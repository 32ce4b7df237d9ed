-- ===== src/Languages.antt =====
-- The language packs of src/patchline/adapters/languages/: one for Python. The parser of Python's `ast` is
-- a parameter.
use patchline.Prelude.{
  ℕ, Bool, true, false, Option, none, some, List, [], ◌∷◌, ◌++◌, Text, text, same, lower, strip,
  rstrip, show, ◌==◌, if◌then◌else◌,
}

-- How `ast.parse` ends. A SyntaxError has its message, its text as a whole, and where it was found.
pub data Ast : Type 0 where
  parsed : Ast
  syntax_error : Text → Text → Option ℕ → Option ℕ → Option Text → Ast
  -- ValueError or TypeError
  value_error : Text → Ast

pub record SyntaxResult : Type 0 where
  pub valid : Bool
  pub error : Option Text
  pub lineno : Option ℕ
  pub offset : Option ℕ
  pub offending : Option Text

pub record LanguagePack : Type 0 where
  pub language_name : Text
  pub file_extensions : List Text
  pub parse_syntax : Text → SyntaxResult

-- f"{n}" for a number or None
abbrev pub show_number : Option ℕ → Text
show_number none = text "None"
show_number (some n) = show n

abbrev place_error : Text → Text → Option ℕ → Option ℕ → Text
place_error msg whole none offset = whole
place_error msg whole (some n) offset =
    msg ++ text " (line " ++ show n ++ text ", column " ++ show_number offset ++ text ")"

abbrev no_newline : Option Text → Option Text
unfolding rstrip
no_newline none = none
no_newline (some s) = some (rstrip (λ c. c == b'\n') s)

unfoldable pub syntax_result : Ast → SyntaxResult
unfolding no_newline
syntax_result parsed = record {
  valid = true;
  error = none;
  lineno = none;
  offset = none;
  offending = none;
}
syntax_result (syntax_error msg whole lineno offset source) = record {
  valid = false;
  error = some (place_error msg whole lineno offset);
  lineno = lineno;
  offset = offset;
  offending = no_newline source;
}
syntax_result (value_error message) = record {
  valid = false;
  error = some message;
  lineno = none;
  offset = none;
  offending = none;
}

unfoldable pub python_pack : (Text → Ast) → LanguagePack
unfolding syntax_result
python_pack parse = record {
  language_name = text "python";
  file_extensions = text ".py" ∷ text ".pyw" ∷ [];
  parse_syntax = λ source. syntax_result (parse source);
}

unfoldable pub is_installed : Text → Bool
unfolding strip lower same
is_installed [] = false
is_installed (c ∷ name) = same (lower (strip (c ∷ name))) (text "python")

unfoldable pub get_pack : (Text → Ast) → Text → Option LanguagePack
unfolding is_installed python_pack
get_pack parse name = if is_installed name then some (python_pack parse) else none
