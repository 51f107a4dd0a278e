-- ===== src/Setup/Response.antt =====
-- frontend/app/setup/page.tsx: the check of the answer, `isSetupResponse`.
pub mod Shape
use go_analyze.Prelude.{String, ◌≡◌, refl, ap, Bool, true, false, ◌&&◌, Option, some, List, [], ◌∷◌}
use go_analyze.Types.{SetupConfigurationResult}
use go_analyze.Json.{get_field, Json, boolean, text, array, object, Items, nil, cons, end, field}

-- `value.every((item) => typeof item === "string")`.
unfoldable pub every_text : Items → Bool
every_text nil = true
every_text (cons (text s) items) = every_text items
every_text (cons _ items) = false

abbrev pub is_text_array : Option Json → Bool
is_text_array (some (array items)) = every_text items
is_text_array _ = false

abbrev pub is_boolean : Option Json → Bool
is_boolean (some (boolean b)) = true
is_boolean _ = false

-- An array is an object without these fields.
unfoldable pub is_setup_response : Json → Bool
is_setup_response (object fs) =
    is_boolean (get_field "accepted" fs)
    && (is_text_array (get_field "validated_components" fs)
        && is_text_array (get_field "warnings" fs))
is_setup_response _ = false

-- The fields as the page reads them after the check.
unfoldable pub texts : Items → List String
texts nil = []
texts (cons (text s) items) = s ∷ texts items
texts (cons _ items) = texts items

abbrev pub texts_of : Option Json → List String
texts_of (some (array items)) = texts items
texts_of _ = []

abbrev pub boolean_of : Option Json → Bool
boolean_of (some (boolean b)) = b
boolean_of _ = false

unfoldable pub read_setup_response : Json → SetupConfigurationResult
read_setup_response (object fs) = record {
  accepted = boolean_of (get_field "accepted" fs);
  validated_components = texts_of (get_field "validated_components" fs);
  warnings = texts_of (get_field "warnings" fs);
}
read_setup_response _ = record { accepted = false; validated_components = []; warnings = [] }

-- How the backend writes a result.
abbrev pub items_of : List String → Items
items_of [] = nil
items_of (s ∷ ss) = cons (text s) (items_of ss)

abbrev pub response_json : SetupConfigurationResult → Json
response_json r = object (
    field "accepted" (boolean r.accepted) (
      field "validated_components" (array (items_of r.validated_components))
        (field "warnings" (array (items_of r.warnings)) end)))

pub every_text-items_of : (ss : List String) → every_text (items_of ss) ≡ true
unfolding every_text
every_text-items_of [] = refl
every_text-items_of (s ∷ ss) = every_text-items_of ss

pub texts-items_of : (ss : List String) → texts (items_of ss) ≡ ss
unfolding texts
texts-items_of [] = refl
texts-items_of (s ∷ ss) = ap (λ (r : List String). s ∷ r) (texts-items_of ss)

pub items_of-texts : (items : Items) → every_text items ≡ true → items_of (texts items) ≡ items
unfolding texts every_text
items_of-texts nil h = refl
items_of-texts (cons (text s) items) h = ap (cons (text s)) (items_of-texts items h)
items_of-texts (cons _ items) h = cc

-- A result that the backend writes passes the check, and is read back as it was.
read_setup_response-response_json :
    (r : SetupConfigurationResult)
    → (is_setup_response (response_json r) ≡ true) × (read_setup_response (response_json r) ≡ r)
unfolding is_setup_response read_setup_response
read_setup_response-response_json r = (
  rw (every_text-items_of r.validated_components, every_text-items_of r.warnings),
  rw (texts-items_of r.validated_components, texts-items_of r.warnings),
)
