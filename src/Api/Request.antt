-- ===== src/Api/Request.antt =====
-- frontend/lib/api.ts: `request`, the one way to the backend.
pub mod Results
use go_analyze.Prelude.{
  ℕ, String, ◌⊎◌, inl, inr, Bool, true, not, ◌&&◌, Option, none, some, List, [], ◌∷◌, nat_eq, ◌==◌,
  if◌then◌else◌, coalesce, is_some, is_truthy, ◌<+>◌,
}
use go_analyze.Platform.{is_ok_status}
use go_analyze.Types.{HttpValidationError}
use go_analyze.Api.Errors.{
  is_validation, kind_for_status, message_for, validation, network, timeout, ApiError,
}
use go_analyze.Api.Url.{build_url, QueryValue, Url}

pub data Method : Type 0 where
  get post put delete : Method

-- What `fetch` is given. The signal is the caller's, if it gave one, and the client's timer's
-- otherwise.
pub data Signal : Type 0 where
  callers timers : Signal

pub record FetchCall (Json Content : Type 0) : Type 0 where
  pub method : Method
  pub url : Url
  pub headers : List (String × String)
  pub body : Option (Json ⊎ Content)
  pub signal : Signal

pub record RequestOptions (Json Content : Type 0) : Type 0 where
  pub method : Option Method
  pub query : List (String × QueryValue)
  pub json : Option Json
  pub body : Option Content
  pub headers : List (String × String)
  pub authenticated : Option Bool
  pub has_signal : Bool

-- A response: what its reading as JSON and as text or blob gives, `none` where that throws. The
-- reading as an error body at the type of the validation errors is `validation_json`. As in the
-- source, a blob is cast to the type `A` that the caller expects.
pub record Response (A Body : Type 0) : Type 0 where
  pub status : ℕ
  pub is_json : Bool  -- the header `content-type` holds "application/json"
  pub json_value : Option A
  pub blob_value : Option A
  pub validation_json : Option HttpValidationError
  pub error_body : Option Body

pub data FetchResult (A Body : Type 0) : Type 0 where
  aborted : FetchResult A Body  -- a DOMException named "AbortError"
  failed : FetchResult A Body  -- any other exception, those of `new URL` included
  answered : Response A Body → FetchResult A Body

-- How `request` ends: with a value, with `undefined` (status 204), with an `ApiError`, or with an
-- exception of the reading of a body that it lets through.
pub data Outcome (A Body : Type 0) : Type 0 where
  gave : A → Outcome A Body
  no_content : Outcome A Body
  api_error : ApiError Body → Outcome A Body
  threw : Outcome A Body

-- The assignment `headers[key] = value`.
unfoldable pub set_header : String → String → List (String × String) → List (String × String)
set_header key value [] = (key, value) ∷ []
set_header key value ((k, v) ∷ hs) =
    let rest = (k, v) ∷ set_header key value hs in if k == key then (key, value) ∷ hs else rest

-- `{ Accept: …, ...headers }`.
unfoldable pub spread_headers :
    List (String × String) → List (String × String) → List (String × String)
spread_headers base [] = base
spread_headers base ((k, v) ∷ hs) = spread_headers (set_header k v base) hs

module _ {Json Content : Type 0} where
  unfoldable pub final_headers :
      RequestOptions Json Content → Option String → List (String × String)
  final_headers o token =
      let base = spread_headers (("Accept", "application/json") ∷ []) o.headers in
      let typed =
        if is_some o.json then set_header "Content-Type" "application/json" base else base in
      if coalesce o.authenticated true && is_truthy token
      then set_header "Authorization" ("Bearer " <+> coalesce token "") typed
      else typed

  module _ (resolve : String → String → String) (print : ℕ → String) (base : String) where
    -- The call of `fetch`; `token` is what `getValidAccessToken` gave, if it was asked.
    unfoldable pub fetch_call :
        String → RequestOptions Json Content → Option String → FetchCall Json Content
    fetch_call path o token = record {
      method = coalesce o.method get;
      url = build_url resolve print base path o.query;
      headers = final_headers o token;
      body = elim o.json [
        | some j ↦ some (inl j)
        | none ↦ elim o.body [ none ↦ none | some b ↦ some (inr b) ]
      ];
      signal = if o.has_signal then callers else timers;
    }

unfoldable pub first_message : HttpValidationError → Option String
first_message e = elim e.detail [
  | none ↦ none
  | some details ↦ elim details [ [] ↦ none | d ∷ ds ↦ some d.msg ]
]

module _ {A Body : Type 0} (print : ℕ → String) where
  -- The error of a 422 whose body was read.
  unfoldable pub detailed_error : Response A Body → HttpValidationError → ApiError Body
  detailed_error r e = record {
    message =
        if is_truthy (first_message e)
        then "Validation error: " <+> coalesce (first_message e) ""
        else "The request was rejected as invalid.";
    status = r.status;
    kind = validation;
    validation_error = some e;
    body = none;
  }

  -- The error of any other response that is not ok.
  unfoldable pub plain_error : Response A Body → ApiError Body
  plain_error r = record {
    message = message_for print r.status (kind_for_status r.status);
    status = r.status;
    kind = kind_for_status r.status;
    validation_error = none;
    body = r.error_body;
  }

  -- The branch of a response that is not ok.
  unfoldable pub error_outcome : Response A Body → Outcome A Body
  error_outcome r =
      let detailed : Outcome A Body = elim r.validation_json [
        | none ↦ threw
        | some e ↦ api_error (detailed_error r e)
      ] in
      if is_validation (kind_for_status r.status) && r.is_json
      then detailed
      else api_error (plain_error r)

  unfoldable pub read_value : Option A → Outcome A Body
  read_value none = threw
  read_value (some a) = gave a

  module _ (timeout_text : String) (base : String) (path : String) where
    -- What `request` makes of the result of `fetch`.
    unfoldable pub settle_request : FetchResult A Body → Outcome A Body
    settle_request aborted = api_error (record {
      message = "Request to " <+> (path <+> (" timed out after " <+> (timeout_text <+> "ms.")));
      status = 0;
      kind = timeout;
      validation_error = none;
      body = none;
    })
    settle_request failed = api_error (record {
      message =
          "Could not reach the GoAnalyze API at "
          <+> (base <+> ". Check that the backend is running and reachable.");
      status = 0;
      kind = network;
      validation_error = none;
      body = none;
    })
    settle_request (answered r) =
        if not (is_ok_status r.status)
        then error_outcome r
        else if nat_eq r.status 204
        then no_content
        else if not r.is_json
        then read_value r.blob_value
        else read_value r.json_value
