-- ===== src/Slugify.antt =====
-- The slug of a title (src/patchline/core/slugify.py).
use native.Mathlib.Omega.{arith}
use patchline.Prelude.{
  zero, suc, is_empty, ℕ, ◌≡◌, ◌≤◌, refl, inl, inr, Bool, true, false, ◌&&◌, ◌||◌, Option, [], ◌∷◌,
  ◌++◌, map, Text, text, leb, ◌==◌, if◌then◌else◌, filter, lower, strip, lstrip, rstrip, take,
  length, show, or_blank, or_else, All, take-All, length-take-le, filter_sound, Bool-cases,
}

-- [a-z0-9-]
unfoldable pub is_slug_char : ℕ → Bool
is_slug_char c = (leb b'a' c && leb c b'z') || (leb b'0' c && leb c b'9') || c == b'-'

abbrev is_hyphen : ℕ → Bool
is_hyphen c = c == b'-'

abbrev starts_hyphen : Text → Bool
starts_hyphen [] = false
starts_hyphen (c ∷ s) = is_hyphen c

-- re.sub("-{2,}", "-"): of the hyphens that stand together one is kept.
unfoldable pub collapse : Text → Text
collapse [] = []
collapse (c ∷ s) =
    let rest = collapse s in if is_hyphen c && starts_hyphen s then rest else c ∷ rest

abbrev pub space_to_hyphen : ℕ → ℕ
space_to_hyphen c = if c == b' ' then b'-' else c

unfoldable pub slugify_title : ℕ → Option Text → Text
unfolding strip lower filter is_slug_char collapse lstrip rstrip
slugify_title max_len title =
    let raw = map space_to_hyphen (lower (strip (or_blank title))) in
    let kept = collapse (filter is_slug_char raw) in
    take max_len (rstrip is_hyphen (lstrip is_hyphen kept))

unfoldable pub slug_or_fallback : Option Text → ℕ → Text
unfolding slugify_title show
slug_or_fallback title entry_id = or_else (slugify_title 50 title) (text "entry-" ++ show entry_id)

-- No two hyphens stand together.
pub IsCollapsed : Text → Type 0
IsCollapsed [] = Unit
IsCollapsed (c ∷ s) = (is_hyphen c && starts_hyphen s ≡ false) × IsCollapsed s

-- What a slug is: characters of the class, no hyphen in front, and no two together.
pub IsSlug : Text → Type 0
IsSlug s = All (λ c. is_slug_char c ≡ true) s × (starts_hyphen s ≡ false) × IsCollapsed s

starts_hyphen-collapse : (s : Text) → starts_hyphen (collapse s) ≡ starts_hyphen s
unfolding collapse
starts_hyphen-collapse [] = refl
starts_hyphen-collapse (c ∷ s) = ground (arith, starts_hyphen-collapse s)

collapse-IsCollapsed : (s : Text) → IsCollapsed (collapse s)
unfolding collapse IsCollapsed
collapse-IsCollapsed [] = tt
collapse-IsCollapsed (c ∷ s) = elim (Bool-cases (is_hyphen c && starts_hyphen s)) [
  | inl e ↦ rw e (collapse-IsCollapsed s)
  | inr e ↦ rw e (rw (starts_hyphen-collapse s) e, collapse-IsCollapsed s)
]

collapse-All : (P : ℕ → Type 0) (s : Text) → All P s → All P (collapse s)
unfolding collapse
collapse-All P [] h = tt
collapse-All P (c ∷ s) h = elim (Bool-cases (is_hyphen c && starts_hyphen s)) [
  | inl e ↦ rw e (collapse-All P s h.1)
  | inr e ↦ rw e (h.0, collapse-All P s h.1)
]

lstrip-All : (P : ℕ → Type 0) (p : ℕ → Bool) (s : Text) → All P s → All P (lstrip p s)
unfolding lstrip
lstrip-All P p [] h = tt
lstrip-All P p (c ∷ s) h = elim (Bool-cases (p c)) [
  | inl e ↦ rw e (lstrip-All P p s h.1)
  | inr e ↦ rw e h
]

rstrip-All : (P : ℕ → Type 0) (p : ℕ → Bool) (s : Text) → All P s → All P (rstrip p s)
unfolding rstrip is_empty
rstrip-All P p [] h = tt
rstrip-All P p (c ∷ s) h = elim (Bool-cases (p c && is_empty (rstrip p s))) [
  | inl e ↦ rw e tt
  | inr e ↦ rw e (h.0, rstrip-All P p s h.1)
]

lstrip-IsCollapsed : (s : Text) → IsCollapsed s → IsCollapsed (lstrip is_hyphen s)
unfolding lstrip IsCollapsed
lstrip-IsCollapsed [] h = tt
lstrip-IsCollapsed (c ∷ s) h = elim (Bool-cases (is_hyphen c)) [
  | inl e ↦ rw e (lstrip-IsCollapsed s h.1)
  | inr e ↦ rw e h
]

-- A text that starts with less hyphens than another one keeps what does not allow two together.
starts_hyphen-rstrip :
    (b : Bool) (s : Text)
    → (b && starts_hyphen s) ≡ false
    → (b && starts_hyphen (rstrip is_hyphen s)) ≡ false
unfolding rstrip is_empty
starts_hyphen-rstrip b [] h = h
starts_hyphen-rstrip b (c ∷ s) h = ground (arith, h)

rstrip-IsCollapsed : (s : Text) → IsCollapsed s → IsCollapsed (rstrip is_hyphen s)
unfolding rstrip IsCollapsed is_empty
rstrip-IsCollapsed [] h = tt
rstrip-IsCollapsed (c ∷ s) h = elim (Bool-cases (is_hyphen c && is_empty (rstrip is_hyphen s))) [
  | inl e ↦ rw e tt
  | inr e ↦ rw e (starts_hyphen-rstrip (is_hyphen c) s h.0, rstrip-IsCollapsed s h.1)
]

starts_hyphen-take :
    (b : Bool) (n : ℕ) (s : Text)
    → (b && starts_hyphen s) ≡ false
    → (b && starts_hyphen (take n s)) ≡ false
starts_hyphen-take b zero s h = ground arith
starts_hyphen-take b (suc n) [] h = h
starts_hyphen-take b (suc n) (c ∷ s) h = h

take-IsCollapsed : (n : ℕ) (s : Text) → IsCollapsed s → IsCollapsed (take n s)
unfolding IsCollapsed
take-IsCollapsed zero s h = tt
take-IsCollapsed (suc n) [] h = tt
take-IsCollapsed (suc n) (c ∷ s) h =
    (starts_hyphen-take (is_hyphen c) n s h.0, take-IsCollapsed n s h.1)

starts_hyphen-lstrip : (s : Text) → starts_hyphen (lstrip is_hyphen s) ≡ false
unfolding lstrip
starts_hyphen-lstrip [] = refl
starts_hyphen-lstrip (c ∷ s) = elim (Bool-cases (is_hyphen c)) [
  | inl e ↦ rw e (starts_hyphen-lstrip s)
  | inr e ↦ rw e e
]

slug_text : Text → Text
slug_text s = rstrip is_hyphen (lstrip is_hyphen (collapse (filter is_slug_char s)))

slug_text-IsSlug : (s : Text) (n : ℕ) → IsSlug (take n (slug_text s))
unfolding IsSlug slug_text
slug_text-IsSlug s n =
    let kept = filter is_slug_char s in
    let P : ℕ → Type 0 = λ c. is_slug_char c ≡ true in
    let front = lstrip is_hyphen (collapse kept) in
    let both = rstrip is_hyphen front in
    (
      take-All P n both (
          rstrip-All P is_hyphen front (
            lstrip-All P is_hyphen (collapse kept)
              (collapse-All P kept (filter_sound is_slug_char s)))),
      starts_hyphen-take true n both
          (starts_hyphen-rstrip true front (starts_hyphen-lstrip (collapse kept))),
      take-IsCollapsed n both (
          rstrip-IsCollapsed front
            (lstrip-IsCollapsed (collapse kept) (collapse-IsCollapsed kept))),
    )

-- For every title, absent or not, and every bound, the slug has at most so many characters; each is a
-- lower-case letter of ASCII, a digit or a hyphen; the first is no hyphen, and no two hyphens stand
-- together.
pub slugify_title-IsSlug :
    (max_len : ℕ) (title : Option Text)
    → (length (slugify_title max_len title) ≤ max_len) × IsSlug (slugify_title max_len title)
unfolding slugify_title slug_text
slugify_title-IsSlug max_len title = (
  length-take-le max_len _,
  slug_text-IsSlug (map space_to_hyphen (lower (strip (or_blank title)))) max_len,
)
