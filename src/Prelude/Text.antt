-- ===== src/Prelude/Text.antt =====
-- Walking a text character by character. The source counts UTF-16 code units; the model counts
-- characters, which is the same for texts of the basic plane.
use Prim.Native.Nat.{ℕ, zero, suc}
use Prim.Native.Char.{Char, code}
use Prim.Native.String
use Prim.Native.String.{String, [], ◌∷◌}
use mathlib.Core.Path.{◌≡◌, ap, ◌∙◌, sym}
use mathlib.Core.List as L
use mathlib.Core.List.{List}
use text.Mathlib.TextLemmas.{nil-append, cons-append}
use go_analyze.Prelude.Tests.{nat_eq, if◌then◌else◌}

infixl 65 ◌<+>◌
abbrev pub ◌<+>◌ : String → String → String
s <+> t = String.◌++◌ s t

abbrev pub map_text : (Char → Char) → String → String
map_text f [] = []
map_text f (c ∷ s) = f c ∷ map_text f s

abbrev pub text_length : String → ℕ
text_length [] = 0
text_length (c ∷ s) = suc (text_length s)

-- `s.slice(0, n)`.
abbrev pub take_text : ℕ → String → String
take_text zero s = []
take_text (suc n) [] = []
take_text (suc n) (c ∷ s) = c ∷ take_text n s

abbrev pub AllChars : (Char → Type 0) → String → Type 0
AllChars P [] = Unit
AllChars P (c ∷ s) = P c × AllChars P s

-- `parts.join(sep)`.
abbrev pub join : String → List String → String
join sep L.[] = []
join sep (L.◌∷◌ s L.[]) = s
join sep (L.◌∷◌ s (L.◌∷◌ t r)) = s <+> (sep <+> join sep (L.◌∷◌ t r))

pub map_text-append :
    (f : Char → Char) (s t : String) → map_text f (s <+> t) ≡ map_text f s <+> map_text f t
map_text-append f [] t = ap (map_text f) (nil-append t) ∙ sym (nil-append _)
map_text-append f (c ∷ s) t =
    ap (map_text f) (cons-append c s t)
    ∙ (ap (λ r. f c ∷ r) (map_text-append f s t) ∙ sym (cons-append (f c) _ _))

pub AllChars-append :
    (P : Char → Type 0) (s t : String) → AllChars P s → AllChars P t → AllChars P (s <+> t)
AllChars-append P [] t h k = rw nil-append k
AllChars-append P (c ∷ s) t (p, h) k = rw cons-append (p, AllChars-append P s t h k)

-- A character before the first part.
abbrev pub onto_first : Char → List String → List String
onto_first c L.[] = L.◌∷◌ (c ∷ []) L.[]
onto_first c (L.◌∷◌ w ws) = L.◌∷◌ (c ∷ w) ws

-- `s.split(sep)`, for the code of a separator of one character.
abbrev pub split_text : ℕ → String → List String
split_text sep [] = L.◌∷◌ "" L.[]
split_text sep (c ∷ s) =
    let rest = split_text sep s in if nat_eq (code c) sep then L.◌∷◌ "" rest else onto_first c rest

-- `s.charAt(0)` and `s.slice(1)`.
abbrev pub first_text : String → String
first_text [] = ""
first_text (c ∷ s) = c ∷ []

abbrev pub rest_text : String → String
rest_text [] = ""
rest_text (c ∷ s) = s
