-- ===== src/Dispatch/Branch.antt =====
-- The name of the branch of a pull request, and when an existing branch is used again.
use patchline.Prelude.{
  ℕ, Bool, true, false, Option, none, some, List, [], ◌∷◌, ◌++◌, Text, text, show, take, same,
  if◌then◌else◌,
}
use patchline.Models.{ChangelogEntry}
use patchline.Diff.Lines.{join}
use patchline.Diff.Hash.{canonical_diff_sha256}
use patchline.Dispatch.Github.{Answer, answered, raised, Call, answer, CompareFile, Github, Tools}

abbrev slug_of : ChangelogEntry → Text
slug_of entry = elim entry.slug [ some (c ∷ s) ↦ c ∷ s | _ ↦ text "entry-" ++ show entry.id ]

unfoldable pub branch_base_name : Tools → ChangelogEntry → Text → Text
unfolding text show
branch_base_name tools entry diff_sha256 =
    text "patchline/"
    ++ slug_of entry
    ++ text "-"
    ++ tools.day entry.created_at
    ++ text "-"
    ++ take 8 diff_sha256

-- The part of the text for one file: none if the answer leaves out its name or its patch.
unfoldable pub compare_part : CompareFile → Option Text
unfolding text
compare_part f = elim f.filename [
  | some (c ∷ name) ↦ elim f.patch [
    | some (d ∷ patch) ↦
        some (text "--- a/" ++ (c ∷ name) ++ 10 ∷ text "+++ b/" ++ (c ∷ name) ++ 10 ∷ d ∷ patch)
    | _ ↦ none
  ]
  | _ ↦ none
]

abbrev add_part : Option Text → Option (List Text) → Option (List Text)
add_part (some part) (some parts) = some (part ∷ parts)
add_part _ _ = none

unfoldable pub compare_parts : List CompareFile → Option (List Text)
unfolding compare_part
compare_parts [] = some []
compare_parts (f ∷ files) = add_part (compare_part f) (compare_parts files)

-- _canonical_compare_hash
unfoldable pub canonical_compare_hash : Tools → List CompareFile → Option Text
unfolding compare_parts canonical_diff_sha256
canonical_compare_hash tools [] = none
canonical_compare_hash tools (f ∷ files) = elim (compare_parts (f ∷ files)) [
  | none ↦ none
  | some parts ↦ some (canonical_diff_sha256 tools.sha256 (join 10 parts))
]

-- existing_branches.get(name, False): of two rows with one branch, the later one counts.
unfoldable pub has_live_pr : Text → List (Text × Bool) → Bool
has_live_pr name rows = go false rows
  where
    go : Bool → List (Text × Bool) → Bool
    go found [] = found
    go found ((branch, live) ∷ rows) = go (if same branch name then live else found) rows

abbrev pub suffixes : List Text
suffixes =
    []
    ∷ text "-2"
    ∷ text "-3"
    ∷ text "-4"
    ∷ text "-5"
    ∷ text "-6"
    ∷ text "-7"
    ∷ text "-8"
    ∷ text "-9"
    ∷ []

abbrev is_match : Text → Option Text → Bool
is_match diff_sha256 none = false
is_match diff_sha256 (some hash) = same hash diff_sha256

module _ {W : Type 0} (gh : Github W) (tools : Tools) (repo default_branch base_name : Text)
    (diff_sha256 : Text) (existing : List (Text × Bool)) (token : Option Text) (now : ℕ) where
  -- Does the branch carry the very diff? A failed comparison does not count.
  abbrev carries : Answer (List CompareFile) → Bool
  carries (answered files) = is_match diff_sha256 (canonical_compare_hash tools files)
  carries (raised e) = false

  -- One round of the loop: the answer to the branch's lookup, and how to go on.
  abbrev try_branch : Text → Answer (Option Text) → Call W (Text × Bool) → Call W (Text × Bool)
  try_branch candidate (raised e) next w = answer (candidate, false) w
  try_branch candidate (answered sha) next w =
      if has_live_pr candidate existing
      then next w
      else (let (found, w') = gh.compare repo default_branch candidate token w in
          if carries found then answer (candidate, true) w' else next w')

  unfoldable pub try_suffixes : List Text → Call W (Text × Bool)
  unfolding answer has_live_pr canonical_compare_hash
  try_suffixes [] w = answer (base_name ++ text "-" ++ tools.time now, false) w
  try_suffixes (suffix ∷ rest) w =
      let candidate = base_name ++ suffix in
      let next = λ (v : W). try_suffixes rest v in
      let (found, w') = gh.get_branch_ref repo candidate token w in
      try_branch candidate found next w'

  unfoldable pub choose_branch : Call W (Text × Bool)
  unfolding try_suffixes
  choose_branch w = try_suffixes suffixes w
