-- ===== src/Ui.antt =====
-- frontend/components/ui/States.tsx and frontend/components/ui/Badges.tsx: the parts of a page, as
-- data. A view is the list of the parts that a component shows for a state, in the order of the page.
-- Styles, icons and fixed texts are left out, and so are classes that do not depend on the state.
use go_analyze.Prelude.{
  ℕ, String, Bool, true, false, Option, none, some, List, [], ◌∷◌, if◌then◌else◌, coalesce,
  is_empty,
}
use go_analyze.Api.Errors.{Kind, unauthorized, forbidden, network}

pub data Item : Type 0 where
  paragraph : String → Item  -- a text, whatever its element
  field : String → String → Item  -- a label with its value
  badge : String → String → Item  -- a class and a text
  link : String → String → Item  -- an address and a text
  button : String → Bool → Item  -- a text, and whether it is disabled
  banner : String → String → Item  -- `InlineBanner`: a kind and a text
  loading_block : String → Item
  empty_block : String → String → Item  -- a title and a description
  error_block : String → String → Bool → Item  -- a heading, a message, and the button "Try again"
  skeleton : ℕ → Item  -- `TableSkeleton`, with its rows

-- What a `catch` or a rejected promise has brought: an `ApiError`, another `Error`, or anything else.
pub data Thrown : Type 0 where
  api_thrown : Kind → String → Thrown
  error_thrown : String → Thrown
  other_thrown : Thrown

-- `error instanceof Error ? error.message : otherwise`.
abbrev pub message_or : String → Thrown → String
message_or otherwise (api_thrown kind message) = message
message_or otherwise (error_thrown message) = message
message_or otherwise other_thrown = otherwise

-- `err instanceof ApiError ? err.message : otherwise`.
abbrev pub api_message_or : String → Thrown → String
api_message_or otherwise (api_thrown kind message) = message
api_message_or otherwise _ = otherwise

-- The headings of `ErrorBlock` for an error without a title of its own.
abbrev pub error_heading : Thrown → String
error_heading (api_thrown unauthorized message) = "Sign-in required"
error_heading (api_thrown forbidden message) = "Access denied"
error_heading (api_thrown network message) = "Can't reach the API"
error_heading _ = "Something went wrong"

-- `ErrorBlock`.
unfoldable pub show_error : Option String → Bool → Thrown → Item
show_error title has_retry e =
    error_block (coalesce title (error_heading e)) (message_or "An unexpected error occurred." e)
      has_retry

-- `{text && <Item/>}` for a text that may be missing.
abbrev pub when_text : Option String → (String → Item) → List Item
when_text none make = []
when_text (some s) make = if is_empty s then [] else make s ∷ []

-- `{value && <Item/>}` for a value that is not a text.
abbrev pub when_some {ℓ} : {A : Type ℓ} → Option A → (A → List Item) → List Item
when_some none make = []
when_some (some a) make = make a

abbrev pub when : Bool → List Item → List Item
when true items = items
when false items = []
