-- ===== src/Diff/Order.antt =====
-- The canonical form does not depend on the order in which a diff lists its files.
use patchline.Prelude.{
  ◌≡◌, ◌≢◌, refl, ◌∙◌, ap, sym, true, false, List, [], ◌∷◌, ◌++◌, map, Text, text_le, sort_by,
  insert_by, arith,
}
use mathlib.Core.List.{map-append}
use patchline.Diff.Lines.{join}
use patchline.Diff.Hash.{Section, section_le, clean_section, all_lines, canonical}

pub text_le_total : (s t : Text) → text_le s t ≡ false → text_le t s ≡ true
unfolding text_le
text_le_total [] t h = ground arith
text_le_total (c ∷ s) [] h = refl
text_le_total (c ∷ s) (d ∷ t) h = ground (arith, text_le_total s t)

pub text_le_antisym : (s t : Text) → text_le s t ≡ true → text_le t s ≡ true → s ≡ t
unfolding text_le
text_le_antisym [] [] h k = refl
text_le_antisym [] (d ∷ t) h k = ground arith
text_le_antisym (c ∷ s) [] h k = ground arith
text_le_antisym (c ∷ s) (d ∷ t) h k = ground (arith, text_le_antisym s t)

pub text_le_trans : (s t u : Text) → text_le s t ≡ true → text_le t u ≡ true → text_le s u ≡ true
unfolding text_le
text_le_trans [] t u h k = refl
text_le_trans (c ∷ s) [] u h k = ground arith
text_le_trans (c ∷ s) (d ∷ t) [] h k = ground arith
text_le_trans (c ∷ s) (d ∷ t) (e ∷ u) h k = ground (arith, text_le_trans s t u)

-- Two sections of different paths, put in place in either order.
insert_comm :
    (x y : Section) (l : List Section)
    → x.0 ≢ y.0
    → insert_by section_le x (insert_by section_le y l)
      ≡ insert_by section_le y (insert_by section_le x l)
unfolding insert_by
insert_comm x y [] d = ground (arith, text_le_total x.0 y.0, text_le_antisym x.0 y.0)
insert_comm x y (z ∷ l) d = ground (
  arith,
  insert_comm x y l d,
  text_le_total x.0 y.0,
  text_le_antisym x.0 y.0,
  text_le_total x.0 z.0,
  text_le_total y.0 z.0,
  text_le_trans x.0 z.0 y.0,
  text_le_trans y.0 z.0 x.0,
  text_le_antisym x.0 z.0,
  text_le_antisym y.0 z.0,
  text_le_trans x.0 y.0 z.0,
  text_le_trans y.0 x.0 z.0,
)

-- The sections in the order of their paths.
sort-swap :
    (x y : Section) (before after : List Section)
    → x.0 ≢ y.0
    → sort_by section_le (before ++ x ∷ y ∷ after) ≡ sort_by section_le (before ++ y ∷ x ∷ after)
unfolding sort_by
sort-swap x y [] after d = insert_comm x y (sort_by section_le after) d
sort-swap x y (z ∷ before) after d = ap (insert_by section_le z) (sort-swap x y before after d)

-- Two sections of different paths that stand next to each other in a diff may be listed in either
-- order: the canonical text, and so its hash, is the same.
pub canonical-swap :
    (x y : Section) (before after : List Section)
    → x.0 ≢ y.0
    → canonical (before ++ x ∷ y ∷ after) ≡ canonical (before ++ y ∷ x ∷ after)
unfolding canonical
canonical-swap x y before after d =
    ap (λ l. join 10 (all_lines l))
      (ap (sort_by section_le) (map-append clean_section before (x ∷ y ∷ after))
        ∙ sort-swap (clean_section x) (clean_section y) (map clean_section before)
            (map clean_section after) d
        ∙ ap (sort_by section_le) (sym (map-append clean_section before (y ∷ x ∷ after))))
