-- ===== src/Json.antt =====
-- A parsed JSON value, as `response.json()` gives it.
use go_analyze.Prelude.{String, Bool, Option, none, some, ◌==◌, if◌then◌else◌}

mutual
  pub data Json : Type 0 where
    null : Json
    boolean : Bool → Json
    number : String → Json
    text : String → Json
    array : Items → Json
    object : Fields → Json

  pub data Items : Type 0 where
    nil : Items
    cons : Json → Items → Items

  pub data Fields : Type 0 where
    end : Fields
    field : String → Json → Fields → Fields

-- `candidate[key]`, with `none` for `undefined`.
abbrev pub get_field : String → Fields → Option Json
get_field key end = none
get_field key (field k v fs) = let rest = get_field key fs in if k == key then some v else rest
