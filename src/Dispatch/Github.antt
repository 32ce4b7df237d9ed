-- ===== src/Dispatch/Github.antt =====
-- What core/dispatch.py uses of the GitHub client and of Python's libraries. The client is a parameter:
-- each call answers or raises, and may change the world `W` behind it.
use patchline.Prelude.{ℕ, Option, List, Text}
use patchline.Diff.Files.{Original}

-- The exceptions that dispatch tells apart, each with its text.
pub data GithubError : Type 0 where
  fast_forward permission_denied other : Text → GithubError

pub data Answer (A : Type 0) : Type 0 where
  answered : A → Answer A
  raised : GithubError → Answer A

abbrev pub Call : Type 0 → Type 0 → Type 0
Call W A = W → Answer A × W

module _ {W A : Type 0} where
  unfoldable pub answer : A → Call W A
  answer a w = (answered a, w)

  unfoldable pub fail : GithubError → Call W A
  fail e w = (raised e, w)

module _ {W A B : Type 0} where
  abbrev pub go_on : Answer A → (A → Call W B) → Call W B
  go_on (answered a) f w = f a w
  go_on (raised e) f w = (raised e, w)

  infixl 10 ◌>>=◌ ◌>>◌
  unfoldable pub ◌>>=◌ : Call W A → (A → Call W B) → Call W B
  unfolding answer fail
  ◌>>=◌ m f w = let (r, w') = m w in go_on r f w'

  abbrev pub ◌>>◌ : Call W A → Call W B → Call W B
  m >> n = m >>= λ _. n

-- A file of a /compare answer
pub record CompareFile : Type 0 where
  pub filename : Option Text
  pub patch : Option Text

-- An item of a tree: its mode and type are constants of the code.
pub record TreeItem : Type 0 where
  pub path : Text
  pub sha : Option Text

-- The answer to create_pull_request
pub record OpenedPull : Type 0 where
  pub number : Option ℕ
  pub html_url : Option Text

-- The client. The token comes last, as in the code's keyword argument.
pub record Github (W : Type 0) : Type 0 where
  pub mint_installation_token : ℕ → Call W Text
  pub get_repo : Text → Option Text → Call W (Option Text)
  pub get_branch_ref : Text → Text → Option Text → Call W (Option Text)
  pub compare : Text → Text → Text → Option Text → Call W (List CompareFile)
  -- fetch_archive_dir: what reading a path of the unpacked archive gives
  pub fetch_archive : Text → Text → Text → Option Text → Call W (Text → Original)
  pub create_ref : Text → Text → Text → Option Text → Call W (Unit {0})
  pub create_blob : Text → Text → Option Text → Call W (Option Text)
  pub create_tree : Text → Text → List TreeItem → Option Text → Call W (Option Text)
  pub create_commit : Text → Text → Option Text → List Text → Option Text → Call W (Option Text)
  pub update_patchline_ref : Text → Text → Option Text → Option Text → Call W (Unit {0})
  pub create_pull_request : Text → Text → Text → Text → Text → Option Text → Call W OpenedPull

-- Provenance of adapters/engine.py, its score as the text that str() gives
pub record Provenance : Type 0 where
  pub quality_score : Option Text
  pub certificate_class : Option Text
  pub disagreement_record : Option Text
  pub models : List Text

-- hashlib, base64, strftime("%Y%m%d"), strftime("%H%M%S") and json
pub record Tools : Type 0 where
  pub sha256 : Text → Text
  pub base64 : Text → Text
  pub day : ℕ → Text
  pub time : ℕ → Text
  pub load_provenance : Text → Option Provenance
