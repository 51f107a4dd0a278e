-- ===== src/Setup/Response/Shape.antt =====
-- frontend/app/setup/page.tsx: `isSetupResponse` as a test of the type `SetupResponse`.
use go_analyze.Prelude.{◌≡◌, refl, sym, ap, subst, ◌↔◌, true, Option, some, and_true}
use go_analyze.Types.{SetupConfigurationResult}
use go_analyze.Json.{get_field, Json, boolean, array, object, Items, Fields}
use go_analyze.Setup.Response.{
  is_text_array, is_boolean, is_setup_response, texts_of, boolean_of, read_setup_response, items_of,
  every_text-items_of, texts-items_of, items_of-texts,
}

-- The type `SetupResponse` of the source, of a JSON value, and the record that it stands for.
pub record IsSetupResponse (j : Json) (r : SetupConfigurationResult) : Type 0 where
  pub fields : Fields
  pub is_object : j ≡ object fields
  pub accepted_boolean : get_field "accepted" fields ≡ some (boolean r.accepted)
  pub components_texts :
      get_field "validated_components" fields ≡ some (array (items_of r.validated_components))
  pub warnings_texts : get_field "warnings" fields ≡ some (array (items_of r.warnings))

boolean_there : (o : Option Json) → is_boolean o ≡ true → o ≡ some (boolean (boolean_of o))
boolean_there (some (boolean b)) h = refl
boolean_there _ h = cc

texts_there : (o : Option Json) → is_text_array o ≡ true → o ≡ some (array (items_of (texts_of o)))
texts_there (some (array items)) h =
    ap (λ (i : Items). some (array i)) (sym (items_of-texts items h))
texts_there _ h = cc

accepted_shape : (j : Json) → is_setup_response j ≡ true → IsSetupResponse j (read_setup_response j)
unfolding is_setup_response read_setup_response
accepted_shape (object fs) h =
    let (flag, rest) = and_true _ _ h in
    let (components, warnings) = and_true _ _ rest in
    record {
      fields = fs;
      is_object = refl;
      accepted_boolean = boolean_there (get_field "accepted" fs) flag;
      components_texts = texts_there (get_field "validated_components" fs) components;
      warnings_texts = texts_there (get_field "warnings" fs) warnings;
    }
accepted_shape _ h = cc

shape_accepted :
    (j : Json) (r : SetupConfigurationResult)
    → IsSetupResponse j r
    → (is_setup_response j ≡ true) × (read_setup_response j ≡ r)
unfolding is_setup_response read_setup_response
shape_accepted j r s = rw s.is_object (
  rw
      (
        s.accepted_boolean,
        s.components_texts,
        s.warnings_texts,
        every_text-items_of r.validated_components,
        every_text-items_of r.warnings,
      )
      refl,
  rw
      (
        s.accepted_boolean,
        s.components_texts,
        s.warnings_texts,
        texts-items_of r.validated_components,
        texts-items_of r.warnings,
      )
      refl,
)

-- The test accepts a JSON value and the page reads `r` of it exactly if the value has the type
-- `SetupResponse` with the fields of `r`: an object whose `accepted` is a Boolean and whose
-- `validated_components` and `warnings` are arrays of texts, whatever other fields it has.
pub is_setup_response-IsSetupResponse :
    (j : Json) (r : SetupConfigurationResult)
    → ((is_setup_response j ≡ true) × (read_setup_response j ≡ r)) ↔ IsSetupResponse j r
is_setup_response-IsSetupResponse j r =
    (λ (good, same). subst (IsSetupResponse j) same (accepted_shape j good), shape_accepted j r)
