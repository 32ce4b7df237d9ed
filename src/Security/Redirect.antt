-- ===== src/Security/Redirect.antt =====
-- The allowlist of targets behind a login (`safe_redirect_target` of src/patchline/core/security.py). A
-- compiled pattern is the list of its pieces, and `matches` is `pattern.match`.
use native.Mathlib.Omega.{arith}
use patchline.Prelude.{
  not, ◌↔◌, ℕ, ◌≡◌, refl, ap, inl, inr, Bool, true, false, ◌&&◌, ◌||◌, Option, none, some, List, [],
  ◌∷◌, Text, text, leb, ◌==◌, if◌then◌else◌, any, before, contains, starts_with, Bool-cases,
}

-- A literal text, or [..]+ for a class of characters.
pub data Piece : Type 0 where
  literal : Text → Piece
  one_or_more : (ℕ → Bool) → Piece

-- `$`: at the end, or before a line feed that ends the text.
abbrev pub at_end : Text → Bool
at_end [] = true
at_end (c ∷ []) = c == b'\n'
at_end (c ∷ d ∷ s) = false

unfoldable pub match_literal : Text → (Text → Bool) → Text → Bool
match_literal [] k s = k s
match_literal (c ∷ p) k [] = false
match_literal (c ∷ p) k (d ∷ s) = c == d && match_literal p k s

unfoldable pub match_class : (ℕ → Bool) → (Text → Bool) → Text → Bool
match_class p k [] = false
match_class p k (c ∷ s) = p c && (k s || match_class p k s)

unfoldable pub matches : List Piece → Text → Bool
unfolding match_literal match_class
matches [] = at_end
matches (literal t ∷ ps) = match_literal t (matches ps)
matches (one_or_more p ∷ ps) = match_class p (matches ps)

-- [a-zA-Z0-9-]
unfoldable pub is_slug_letter : ℕ → Bool
is_slug_letter c =
    (leb b'a' c && leb c b'z')
    || (leb b'A' c && leb c b'Z')
    || (leb b'0' c && leb c b'9')
    || c == b'-'

-- [a-zA-Z0-9_-]
unfoldable pub is_id_letter : ℕ → Bool
unfolding is_slug_letter
is_id_letter c = is_slug_letter c || c == b'_'

abbrev pub redirect_patterns : List (List Piece)
unfolding is_slug_letter is_id_letter
redirect_patterns =
    (literal (text "/") ∷ [])
    ∷ (literal (text "/entries/") ∷ one_or_more is_slug_letter ∷ [])
    ∷ (literal (text "/entries/")
        ∷ one_or_more is_slug_letter
        ∷ literal (text "/repos/")
        ∷ one_or_more is_id_letter
        ∷ literal (text "/review")
        ∷ [])
    ∷ (literal (text "/entries/") ∷ one_or_more is_slug_letter ∷ literal (text "/coverage") ∷ [])
    ∷ (literal (text "/pull-requests") ∷ [])
    ∷ (literal (text "/repositories") ∷ [])
    ∷ (literal (text "/repositories/") ∷ one_or_more is_id_letter ∷ literal (text "/coverage") ∷ [])
    ∷ (literal (text "/jobs") ∷ [])
    ∷ (literal (text "/settings") ∷ [])
    ∷ (literal (text "/connections/setup") ∷ [])
    ∷ []

unfoldable pub is_known_page : Text → Bool
unfolding any matches
is_known_page path = any (λ p. matches p path) redirect_patterns

unfoldable pub is_foreign : Text → Bool
unfolding starts_with contains
is_foreign target =
    not (starts_with (text "/") target)
    || starts_with (text "//") target
    || contains (text "://") target

unfoldable pub known_page : Text → Text
unfolding is_known_page
known_page path = if is_known_page path then path else text "/"

unfoldable pub safe_redirect_target : Option Text → Text
unfolding is_foreign known_page before
safe_redirect_target none = text "/"
safe_redirect_target (some []) = text "/"
safe_redirect_target (some (c ∷ s)) =
    if is_foreign (c ∷ s) then text "/" else known_page (before b'?' (c ∷ s))

starts_with-before :
    (p : Text) (c : ℕ) (s : Text) → starts_with p s ≡ false → starts_with p (before c s) ≡ false
unfolding starts_with before
starts_with-before [] c s h = h
starts_with-before (a ∷ p) c [] h = h
starts_with-before (a ∷ p) c (d ∷ s) h = elim (Bool-cases (d == c)) [
  | inl e ↦ rw e refl
  | inr e ↦ rw e (ground (arith, starts_with-before p c s))
]

contains-before :
    (a : ℕ) (p : Text) (c : ℕ) (s : Text)
    → contains (a ∷ p) s ≡ false
    → contains (a ∷ p) (before c s) ≡ false
unfolding contains before starts_with
contains-before a p c [] h = h
contains-before a p c (d ∷ s) h = elim (Bool-cases (d == c)) [
  | inl e ↦ rw e refl
  | inr e ↦ ground (arith, starts_with-before (a ∷ p) c (d ∷ s), contains-before a p c s)
]

before-before : (c : ℕ) (s : Text) → before c (before c s) ≡ before c s
unfolding before
before-before c [] = refl
before-before c (d ∷ s) = elim (Bool-cases (d == c)) [
  | inl e ↦ rw e refl
  | inr e ↦ rw e (rw e (ap (λ t. d ∷ t) (before-before c s)))
]

is_foreign_iff :
    (s : Text)
    → (is_foreign s ≡ false) ↔ (
        (starts_with (text "/") s ≡ true)
        × (starts_with (text "//") s ≡ false)
        × (contains (text "://") s ≡ false))
unfolding is_foreign
is_foreign_iff s = grind arith

slash-before :
    (s : Text) → starts_with (text "/") s ≡ true → starts_with (text "/") (before b'?' s) ≡ true
unfolding starts_with before text
slash-before [] h = h
slash-before (c ∷ s) h = ground arith

is_foreign-before : (s : Text) → is_foreign s ≡ false → is_foreign (before b'?' s) ≡ false
unfolding text
is_foreign-before s h =
    let (slash, one, scheme) = (is_foreign_iff s).0 h in
    (is_foreign_iff (before b'?' s)).1
      (slash-before s slash, starts_with-before _ b'?' s one, contains-before _ _ b'?' s scheme)

-- What a login may redirect to: a page of the allowlist, on this host, which a second check leaves alone.
pub IsSafe : Text → Type 0
IsSafe r =
    (is_known_page r ≡ true)
    × (starts_with (text "/") r ≡ true)
    × (starts_with (text "//") r ≡ false)
    × (contains (text "://") r ≡ false)
    × (safe_redirect_target (some r) ≡ r)

root-IsSafe : IsSafe (text "/")
unfolding IsSafe safe_redirect_target is_known_page starts_with contains any is_foreign known_page
    matches match_literal redirect_patterns text before
root-IsSafe = (refl, refl, refl, refl, refl)

foreign_blank : is_foreign [] ≡ true
unfolding is_foreign starts_with text
foreign_blank = refl

safe_page :
    (path : Text)
    → before b'?' path ≡ path
    → is_foreign path ≡ false
    → is_known_page path ≡ true
    → safe_redirect_target (some path) ≡ path
unfolding safe_redirect_target known_page is_known_page
safe_page [] b f e = ground (arith, foreign_blank)
safe_page (c ∷ s) b f e = rw f (rw b (rw e refl))

page-IsSafe :
    (path : Text)
    → before b'?' path ≡ path
    → is_foreign path ≡ false
    → is_known_page path ≡ true
    → IsSafe path
unfolding IsSafe
page-IsSafe path b f e =
    let (slash, one, scheme) = (is_foreign_iff path).0 f in
    (e, slash, one, scheme, safe_page path b f e)

known_page-IsSafe :
    (path : Text) → before b'?' path ≡ path → is_foreign path ≡ false → IsSafe (known_page path)
unfolding known_page
known_page-IsSafe path b f = elim (Bool-cases (is_known_page path)) [
  | inl e ↦ rw e (page-IsSafe path b f e)
  | inr e ↦ rw e root-IsSafe
]

-- Whatever target a request asks for, the one that is used is a page of the allowlist, starts with one
-- slash and not with two, has no scheme in it, and is kept by a second check.
pub safe_redirect_target-IsSafe : (target : Option Text) → IsSafe (safe_redirect_target target)
unfolding safe_redirect_target
safe_redirect_target-IsSafe none = root-IsSafe
safe_redirect_target-IsSafe (some []) = root-IsSafe
safe_redirect_target-IsSafe (some (c ∷ s)) = elim (Bool-cases (is_foreign (c ∷ s))) [
  | inl e ↦ rw e root-IsSafe
  | inr e ↦ rw e (
      known_page-IsSafe (before b'?' (c ∷ s)) (before-before b'?' (c ∷ s))
        (is_foreign-before (c ∷ s) e))
]
