-- ===== src/Prelude/Split.antt =====
-- Texts cut at a character and put together again.

use text.Mathlib.TextLemmas.{nil-append, cons-append}
use Prim.Native.Nat.{ℕ}
use Prim.Native.Char.{Char, code}
use Prim.Native.String.{String}
use mathlib.Core.Path.{◌≡◌, refl, ap, ◌∙◌}
use mathlib.Core.Bool.{false}
use mathlib.Core.List.{List, [], ◌∷◌}
use go_analyze.Prelude.Lists.{All}
use go_analyze.Prelude.Tests.{nat_eq, if◌then◌else◌, is_empty, if_elim}
use go_analyze.Prelude.Text.{◌<+>◌, AllChars, join, onto_first, split_text}

-- `filter(Boolean)` on texts.
unfoldable pub non_empty : List String → List String
non_empty [] = []
non_empty (s ∷ ss) = let rest = non_empty ss in if is_empty s then rest else s ∷ rest

module _ (sep : ℕ) where
  -- A text without the separator.
  abbrev pub IsPart : String → Type 0
  IsPart = AllChars (λ c. nat_eq (code c) sep ≡ false)

  onto_first-All :
      (c : Char) (parts : List String)
      → nat_eq (code c) sep ≡ false
      → All IsPart parts
      → All IsPart (onto_first c parts)
  onto_first-All c [] h hs = ((h, tt), tt)
  onto_first-All c (w ∷ ws) h (p, hs) = ((h, p), hs)

  pub split_text-All : (s : String) → All IsPart (split_text sep s)
  split_text-All String.[] = (tt, tt)
  split_text-All (String.◌∷◌ c s) =
      if_elim (All IsPart) (nat_eq (code c) sep) (λ e. (tt, split_text-All s))
        (λ e. onto_first-All c (split_text sep s) e (split_text-All s))

  split_text_part : (s : String) → IsPart s → split_text sep s ≡ s ∷ []
  split_text_part String.[] h = refl
  split_text_part (String.◌∷◌ c s) (p, h) = rw p (ap (onto_first c) (split_text_part s h))

-- A segment of a path.
abbrev pub IsSegment : String → Type 0
IsSegment s = IsPart b'/' s × (is_empty s ≡ false)

split_slash : (t : String) → split_text b'/' ("/" <+> t) ≡ "" ∷ split_text b'/' t
split_slash t =
    ap (split_text b'/') (cons-append _ String.[] t)
    ∙ ap (split_text b'/') (ap (String.◌∷◌ "/") (nil-append t))

split_part :
    (s t : String) → IsPart b'/' s → split_text b'/' (s <+> ("/" <+> t)) ≡ s ∷ split_text b'/' t
split_part String.[] t h = ap (split_text b'/') (nil-append ("/" <+> t)) ∙ split_slash t
split_part (String.◌∷◌ c s) t (p, h) =
    ap (split_text b'/') (cons-append c s ("/" <+> t)) ∙ rw p (ap (onto_first c) (split_part s t h))

non_empty-All : (ss : List String) → All (IsPart b'/') ss → All IsSegment (non_empty ss)
unfolding non_empty
non_empty-All [] h = tt
non_empty-All (s ∷ ss) (p, h) =
    if_elim (All IsSegment) (is_empty s) (λ e. non_empty-All ss h)
      (λ e. ((p, e), non_empty-All ss h))

-- The parts of a text that is put together of segments are these, or one empty part.
split_text-join :
    (ss : List String) → All IsSegment ss → non_empty (split_text b'/' (join "/" ss)) ≡ ss
unfolding non_empty
split_text-join [] h = refl
split_text-join (s ∷ []) ((p, full), h) = rw (split_text_part b'/' s p, full) refl
split_text-join (s ∷ t ∷ ss) ((p, full), h) =
    rw (split_part s (join "/" (t ∷ ss)) p, full)
      (ap (λ (r : List String). s ∷ r) (split_text-join (t ∷ ss) h))

-- The segments of a path that is put together of segments are these.
pub segments-join :
    (ss : List String) → All IsSegment ss → non_empty (split_text b'/' ("/" <+> join "/" ss)) ≡ ss
unfolding non_empty
segments-join ss h = ap non_empty (split_slash (join "/" ss)) ∙ split_text-join ss h

-- The segments of any path.
pub segments-All : (path : String) → All IsSegment (non_empty (split_text b'/' path))
segments-All path = non_empty-All (split_text b'/' path) (split_text-All b'/' path)
