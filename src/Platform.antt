-- ===== src/Platform.antt =====
-- The browser as frontend/lib uses it: Web Storage (a map from texts to texts whose writes may be
-- refused, as when the quota is used up) and the answers of `fetch`.
use go_analyze.Prelude.{
  ℕ, String, ◌≡◌, Bool, false, Option, none, some, ◌==◌, if◌then◌else◌, ◌&&◌, leb, eq_refl, List,
}

-- `window.sessionStorage` and `window.localStorage`.
abbrev pub Storage : Type 0
Storage = String → Option String

unfoldable pub get_item : String → Storage → Option String
get_item key s = s key

unfoldable pub set_item : String → String → Storage → Storage
set_item key value s k = if key == k then some value else s k

unfoldable pub remove_item : String → Storage → Storage
remove_item key s k = if key == k then none else s k

abbrev pub empty_storage : Storage
empty_storage _ = none

-- Whether the browser accepts a write: `setItem` throws where it does not.
abbrev pub Room : Type 0
Room = Storage → String → String → Bool

-- `setItem`, with `none` for the exception.
unfoldable pub try_set_item : Room → String → String → Storage → Option Storage
try_set_item room key value s = if room s key value then some (set_item key value s) else none

pub get_item-set_item_self : (k v : String) (s : Storage) → get_item k (set_item k v s) ≡ some v
unfolding get_item set_item
get_item-set_item_self k v s = rw (eq_refl k)

pub get_item-set_item_ne :
    (k j v : String) (s : Storage) → (k == j) ≡ false → get_item j (set_item k v s) ≡ get_item j s
unfolding get_item set_item
get_item-set_item_ne k j v s e = rw e

pub get_item-remove_item_self : (k : String) (s : Storage) → get_item k (remove_item k s) ≡ none
unfolding get_item remove_item
get_item-remove_item_self k s = rw (eq_refl k)

pub get_item-remove_item_ne :
    (k j : String) (s : Storage) → (k == j) ≡ false → get_item j (remove_item k s) ≡ get_item j s
unfolding get_item remove_item
get_item-remove_item_ne k j s e = rw e

-- `response.ok`.
abbrev pub is_ok_status : ℕ → Bool
is_ok_status status = leb 200 status && leb status 299

-- What `await fetch` gives: a rejected promise, or a response with its status and its body as
-- `response.json()` reads it, `none` where that throws.
pub data FetchReply {ℓ} (A : Type ℓ) : Type ℓ where
  rejected : FetchReply A
  replied : ℕ → Option A → FetchReply A

-- The fields of a form or of a query string.
abbrev pub Form : Type 0
Form = List (String × String)

-- A `File` of the browser.
pub record File : Type 0 where
  pub name : String
  pub mime_type : String  -- the property `type`
  pub size : ℕ
  pub bytes : List ℕ
