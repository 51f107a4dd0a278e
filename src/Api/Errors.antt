-- ===== src/Api/Errors.antt =====
-- frontend/lib/api.ts: `ApiError`, and the kinds of failure.
pub mod Kinds
use go_analyze.Prelude.{ℕ, String, Bool, true, false, Option, leb, nat_eq, if◌then◌else◌, ◌<+>◌}
use go_analyze.Types.{HttpValidationError}

pub data Kind : Type 0 where
  unauthorized forbidden validation not_found server network timeout unknown : Kind

-- `kind === "validation"`.
abbrev pub is_validation : Kind → Bool
is_validation validation = true
is_validation _ = false

pub record ApiError (Body : Type 0) : Type 0 where
  pub message : String
  pub status : ℕ
  pub kind : Kind
  pub validation_error : Option HttpValidationError
  pub body : Option Body

unfoldable pub kind_for_status : ℕ → Kind
kind_for_status status =
    if nat_eq status 401
    then unauthorized
    else if nat_eq status 403
    then forbidden
    else if nat_eq status 404
    then not_found
    else if nat_eq status 422
    then validation
    else if leb 500 status
    then server
    else unknown

-- The table `messages`, `number` being how a status is printed.
unfoldable pub message_for : (ℕ → String) → ℕ → Kind → String
message_for number status unauthorized = "Your session has expired or you are not signed in."
message_for number status forbidden = "You don't have permission to perform this action."
message_for number status not_found = "The requested resource was not found."
message_for number status validation = "The request was rejected as invalid."
message_for number status server =
    "The GoAnalyze API encountered an internal error. Please try again shortly."
message_for number status network = "Network error contacting the GoAnalyze API."
message_for number status timeout = "The request timed out."
message_for number status unknown = "Request failed with status " <+> (number status <+> ".")
