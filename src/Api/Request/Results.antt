-- ===== src/Api/Request/Results.antt =====
-- frontend/lib/api.ts: the headers that `request` sends, and what it makes of every answer.
use go_analyze.Prelude.{
  ℕ, String, ◌≡◌, refl, ap, ◌∙◌, ◌≢◌, ◌⊎◌, inl, inr, Bool, true, false, ◌&&◌, Option, none, some,
  List, [], ◌∷◌, ◌==◌, is_empty, if◌then◌else◌, Bool-cases, Option-cases, coalesce, is_some,
  is_truthy, and_true, if_same, nat_ne, key_tests, ◌<+>◌,
}
use go_analyze.Platform.{is_ok_status}
use go_analyze.Api.Errors.{
  is_validation, kind_for_status, Kind, validation, network, timeout, ApiError,
}
use go_analyze.Types.{HttpValidationError, ValidationError}
use go_analyze.Api.Errors.Kinds.{KindOf, kind_for_status_iff}
use go_analyze.Api.Url.Query.{get_param}
use go_analyze.Api.Request.{
  set_header, spread_headers, final_headers, detailed_error, plain_error, error_outcome, read_value,
  first_message, gave, settle_request, RequestOptions, Response, FetchResult, aborted, failed,
  answered, Outcome, no_content, api_error, threw,
}

get_param-set_header :
    (key k v : String) (hs : List (String × String))
    → get_param k (set_header key v hs) ≡ (if key == k then some v else get_param k hs)
unfolding set_header
get_param-set_header key k v [] = refl
get_param-set_header key k v ((j, w) ∷ hs) = grind (key_tests, get_param-set_header key k v hs)

get_param-if_set :
    (b : Bool) (key k v : String) (hs : List (String × String))
    → get_param k (if b then set_header key v hs else hs)
      ≡ (if b then (if key == k then some v else get_param k hs) else get_param k hs)
get_param-if_set true key k v hs = get_param-set_header key k v hs
get_param-if_set false key k v hs = refl

module _ {Json Content : Type 0} (o : RequestOptions Json Content) (token : Option String) where
  abbrev own_headers : List (String × String)
  own_headers = spread_headers (("Accept", "application/json") ∷ []) o.headers

  -- The header `Authorization` is the caller's own unless the request is an authenticated one and
  -- there is a token, and then it is that token's; a body given as JSON has the content type of JSON
  -- whatever the caller says.
  pub final_headers-fields :
      (get_param "Authorization" (final_headers o token) ≡ (
        if coalesce o.authenticated true && is_truthy token
        then some ("Bearer " <+> coalesce token "")
        else get_param "Authorization" own_headers))
      × (get_param "Content-Type" (final_headers o token) ≡ (
          if is_some o.json then some "application/json" else get_param "Content-Type" own_headers))
  unfolding final_headers
  final_headers-fields =
      let authorized = coalesce o.authenticated true && is_truthy token in
      let bearer = "Bearer " <+> coalesce token "" in
      let typed =
        if is_some o.json
        then set_header "Content-Type" "application/json" own_headers
        else own_headers in
      (
        get_param-if_set authorized "Authorization" "Authorization" bearer typed
            ∙ ap (λ h. if authorized then some bearer else h)
                (get_param-if_set (is_some o.json) "Content-Type" "Authorization" "application/json"
                    own_headers
                  ∙ if_same (is_some o.json) (get_param "Authorization" own_headers)),
        get_param-if_set authorized "Authorization" "Content-Type" bearer typed
            ∙ (if_same authorized (get_param "Content-Type" typed)
                ∙ get_param-if_set (is_some o.json) "Content-Type" "Content-Type" "application/json"
                    own_headers),
      )

is_validation_inv : (k : Kind) → is_validation k ≡ true → k ≡ validation
is_validation_inv validation h = refl
is_validation_inv _ h = cc

module _ {A Body : Type 0} (print : ℕ → String) (timeout_text base path : String) where
  -- A body that was read is the value of the request, and one that cannot be read its exception.
  abbrev pub Reads : Option A → Outcome A Body → Type 0
  Reads none out = out ≡ threw
  Reads (some a) out = out ≡ gave a

  read_value-Reads : (o : Option A) (out : Outcome A Body) → out ≡ read_value print o → Reads o out
  unfolding read_value
  read_value-Reads none out h = h
  read_value-Reads (some a) out h = h

  -- The error of an answer: its status, the kind that this status has in the contract, and for a 422
  -- in JSON the validation errors, the first of which is in the message.
  pub record IsErrorOf (r : Response A Body) (e : ApiError Body) : Type 0 where
    pub kind : KindOf r.status e.kind
    pub status : e.status ≡ r.status
    pub details :
        r.status ≡ 422
        → r.is_json ≡ true
        → (v : HttpValidationError) → r.validation_json ≡ some v
        → (e.validation_error ≡ some v)
          × ((d : ValidationError) (ds : List ValidationError)
              → v.detail ≡ some (d ∷ ds)
              → is_empty d.msg ≡ false
              → e.message ≡ "Validation error: " <+> d.msg)

  -- What a result of `fetch` calls for.
  abbrev pub Ends : FetchResult A Body → Outcome A Body → Type 0
  Ends aborted out = (e : ApiError Body) × (out ≡ api_error e) × (e.kind ≡ timeout) × (e.status ≡ 0)
  Ends failed out = (e : ApiError Body) × (out ≡ api_error e) × (e.kind ≡ network) × (e.status ≡ 0)
  Ends (answered r) out =
      (is_ok_status r.status ≡ true
        → (r.status ≡ 204 → out ≡ no_content)
          × (r.status ≢ 204 → r.is_json ≡ true → Reads r.json_value out)
          × (r.status ≢ 204 → r.is_json ≡ false → Reads r.blob_value out))
      × (is_ok_status r.status ≡ false
          → ((e : ApiError Body) × (out ≡ api_error e) × IsErrorOf r e)
            ⊎ ((out ≡ threw) × (r.status ≡ 422) × (r.is_json ≡ true) × (r.validation_json ≡ none)))

  plain_error-IsErrorOf :
      (r : Response A Body)
      → (is_validation (kind_for_status r.status) && r.is_json) ≡ false
      → IsErrorOf r (plain_error print r)
  unfolding plain_error
  plain_error-IsErrorOf r plain = record {
    kind = (kind_for_status_iff r.status (kind_for_status r.status)).0 refl;
    status = refl;
    details = λ is_422 is_js v read.
        cc ((kind_for_status_iff r.status validation).1 is_422, is_js, plain);
  }

  detailed_message :
      (r : Response A Body) (v : HttpValidationError) (d : ValidationError)
      (ds : List ValidationError)
      → v.detail ≡ some (d ∷ ds)
      → is_empty d.msg ≡ false
      → (detailed_error print r v).message ≡ "Validation error: " <+> d.msg
  unfolding detailed_error first_message
  detailed_message r v d ds first full = rw (first_message, first, full) refl

  detailed_error-IsErrorOf :
      (r : Response A Body) (v : HttpValidationError)
      → r.status ≡ 422
      → r.validation_json ≡ some v
      → IsErrorOf r (detailed_error print r v)
  unfolding detailed_error
  detailed_error-IsErrorOf r v is_422 read = record {
    kind = is_422;
    status = refl;
    details = λ _ _ w read'.
        let same : v ≡ w = cc (read, read') in
        (ap some same, λ d ds first. detailed_message r v d ds (rw same first));
  }

  error_outcome-Ends :
      (r : Response A Body)
      → ((e : ApiError Body) × (error_outcome print r ≡ api_error e) × IsErrorOf r e)
        ⊎ ((error_outcome print r ≡ threw)
            × (r.status ≡ 422)
            × (r.is_json ≡ true)
            × (r.validation_json ≡ none))
  unfolding error_outcome detailed_error
  error_outcome-Ends r = elim (Bool-cases (is_validation (kind_for_status r.status) && r.is_json)) [
    | inr plain ↦
        inl (plain_error print r, rw (error_outcome, plain), plain_error-IsErrorOf r plain)
    | inl detailed ↦
        let (is_val, is_js) = and_true _ _ detailed in
        let is_422 =
          (kind_for_status_iff r.status validation).0
            (is_validation_inv (kind_for_status r.status) is_val) in
        elim (Option-cases r.validation_json) [
          | inl unread ↦ inr (rw (error_outcome, detailed, unread), is_422, is_js, unread)
          | inr (v, read) ↦ inl (
            detailed_error print r v,
            simp (error_outcome, detailed, read),
            detailed_error-IsErrorOf r v is_422 read,
          )
        ]
  ]

  pub settle_request-Ends :
      (r : FetchResult A Body) → Ends r (settle_request print timeout_text base path r)
  unfolding settle_request
  settle_request-Ends aborted = (_, refl, refl, refl)
  settle_request-Ends failed = (_, refl, refl, refl)
  settle_request-Ends (answered r) = (
    λ ok. (
      λ e. rw (settle_request, ok, e),
      λ ne j. read_value-Reads r.json_value _ (rw (settle_request, ok, nat_ne r.status 204 ne, j)),
      λ ne b. read_value-Reads r.blob_value _ (rw (settle_request, ok, nat_ne r.status 204 ne, b)),
    ),
    λ bad. rw (settle_request, bad) (error_outcome-Ends r),
  )
