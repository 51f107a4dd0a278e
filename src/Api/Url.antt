-- ===== src/Api/Url.antt =====
-- frontend/lib/api.ts: `buildUrl`. The URL parser is the browser's: `resolve` is `new URL(path, base)`
-- without its query, which no path of the client has.
pub mod Query
use go_analyze.Prelude.{
  ℕ, code, String, Bool, ◌&&◌, Option, none, some, List, [], ◌∷◌, nat_eq, ◌==◌, if◌then◌else◌,
  is_empty, or_null,
}

-- A value of the option `query`.
pub data QueryValue : Type 0 where
  text : String → QueryValue
  number : ℕ → QueryValue
  boolean : Bool → QueryValue
  undefined null : QueryValue

pub record Url : Type 0 where
  pub href : String
  pub search_params : List (String × String)

-- `url.searchParams.set`: the first entry of the key takes the value and the others are dropped, or
-- a new one is appended.
unfoldable pub drop_key : String → List (String × String) → List (String × String)
drop_key key [] = []
drop_key key ((k, v) ∷ ps) = let rest = drop_key key ps in if k == key then rest else (k, v) ∷ rest

unfoldable pub set_param : String → String → List (String × String) → List (String × String)
unfolding drop_key
set_param key value [] = (key, value) ∷ []
set_param key value ((k, v) ∷ ps) =
    let rest = (k, v) ∷ set_param key value ps in
    if k == key then (key, value) ∷ drop_key key ps else rest

-- The text that a value is set to, `none` where the loop goes on to the next entry. `print` is
-- `String` on numbers.
unfoldable pub query_text : (ℕ → String) → QueryValue → Option String
query_text print (text s) = or_null s
query_text print (number n) = some (print n)
query_text print (boolean b) = some (if b then "true" else "false")
query_text print undefined = none
query_text print null = none

-- The loop over the entries of `query`.
unfoldable pub add_query :
    (ℕ → String) → List (String × QueryValue) → List (String × String) → List (String × String)
add_query print [] params = params
add_query print ((key, value) ∷ entries) params =
    add_query print entries
      (elim (query_text print value) [ none ↦ params | some s ↦ set_param key s params ])

-- `path.replace(/^\//, "")`.
unfoldable pub strip_leading_slash : String → String
strip_leading_slash String.[] = ""
strip_leading_slash (String.◌∷◌ c s) = if nat_eq (code c) b'/' then s else String.◌∷◌ c s

-- `base.replace(/\/?$/, "/")`: the text ends in exactly one more slash, or keeps the one it has.
unfoldable pub ensure_slash : String → String
ensure_slash String.[] = "/"
ensure_slash (String.◌∷◌ c s) =
    let rest = String.◌∷◌ c (ensure_slash s) in
    if is_empty s && nat_eq (code c) b'/' then "/" else rest

unfoldable pub build_url :
    (String → String → String) → (ℕ → String) → String → String → List (String × QueryValue) → Url
build_url resolve print base path query = record {
  href = resolve (strip_leading_slash path) (ensure_slash base);
  search_params = add_query print query [];
}
