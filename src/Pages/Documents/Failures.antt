-- ===== src/Pages/Documents/Failures.antt =====
-- frontend/lib/api.ts, frontend/hooks/useDocuments.ts, frontend/components/ui/States.tsx and
-- frontend/app/documents/page.tsx: what a request that failed looks like on the page.
use go_analyze.Ui as U
use go_analyze.Types.{SearchResponse}
use go_analyze.Hooks.{settle, thrown}
use go_analyze.Api.Request.Results.{settle_request-Ends}
use go_analyze.Pages.Paging.{search_params}
use go_analyze.Pages.Documents.{
  run_search, documents_view, documents_step, DocumentsPage, clicked_retry, search_ended,
}
use go_analyze.Prelude.{
  ◌&&◌, is_some, sym, Bool-cases, Option-cases, and_true, ℕ, String, ◌≡◌, refl, ap, ◌∙◌, inl, inr,
  Bool, true, false, not, Option, none, some, [], ◌∷◌, ◌++◌, arith, nat_eq, if◌then◌else◌,
}
use go_analyze.Platform.{is_ok_status}
use go_analyze.Ui.{message_or, error_heading, show_error, Thrown, api_thrown, error_thrown}
use go_analyze.Api.Errors.{kind_for_status, Kind}
use go_analyze.Api.Errors.Kinds.{kind_for_status_iff}
use go_analyze.Api.Request.{
  read_value, settle_request, Response, FetchResult, aborted, failed, answered, Outcome, api_error,
  threw,
}

-- What `request` throws: an `ApiError`, or the exception of a body that cannot be read, whose message
-- is `unread`.
abbrev pub thrown_of : {A Body : Type 0} → String → Outcome A Body → Option Thrown
thrown_of unread (api_error e) = some (api_thrown e.kind e.message)
thrown_of unread threw = some (error_thrown unread)
thrown_of unread _ = none

-- A body that `request` cannot read.
abbrev is_unread : {A Body : Type 0} → Response A Body → Bool
is_unread r = not (is_some (if r.is_json then r.json_value else r.blob_value))

-- A result of `fetch` that is no success: no answer, one whose status is not from 200 to 299, or one
-- whose body cannot be read, where there is one.
abbrev pub is_failure : {A Body : Type 0} → FetchResult A Body → Bool
is_failure (answered r) =
    if is_ok_status r.status then not (nat_eq r.status 204) && is_unread r else true
is_failure _ = true

-- The heading that its cause calls for.
abbrev pub heading_for : {A Body : Type 0} → FetchResult A Body → String
heading_for aborted = "Something went wrong"
heading_for failed = "Can't reach the API"
heading_for (answered r) =
    if nat_eq r.status 401
    then "Sign-in required"
    else if nat_eq r.status 403
    then "Access denied"
    else "Something went wrong"

heading_of_status :
    (status : ℕ) (message : String)
    → error_heading (api_thrown (kind_for_status status) message) ≡ (
        if nat_eq status 401
        then "Sign-in required"
        else if nat_eq status 403
        then "Access denied"
        else "Something went wrong")
unfolding kind_for_status
heading_of_status status message = ground arith

module _ {Body : Type 0} (print number locale : ℕ → String)
    (timeout_text base path unread : String) where
  -- What a failure throws, under the heading for it.
  Throws : FetchResult SearchResponse Body → Type 0
  Throws r =
      (t : Thrown) × (thrown_of unread (settle_request print timeout_text base path r) ≡ some t)
      × (error_heading t ≡ heading_for r)

  answered-Throws :
      (r : Response SearchResponse Body) → is_ok_status r.status ≡ false → Throws (answered r)
  unfolding Throws
  answered-Throws r bad =
      let (_, fails) = settle_request-Ends print timeout_text base path (answered r) in
      elim (fails bad) [
        | inl (e, out, error) ↦ (
          api_thrown e.kind e.message,
          ap (thrown_of unread) out,
          ap (λ (k : Kind). error_heading (api_thrown k e.message))
                (sym ((kind_for_status_iff r.status e.kind).1 error.kind))
              ∙ heading_of_status r.status e.message,
        )
        | inr (out, status, _, _) ↦ (error_thrown unread, ap (thrown_of unread) out, rw status refl)
      ]

  -- A body that cannot be read: the exception comes through.
  unread-threw :
      (r : Response SearchResponse Body)
      → is_ok_status r.status ≡ true
      → nat_eq r.status 204 ≡ false
      → is_unread r ≡ true
      → settle_request print timeout_text base path (answered r) ≡ threw
  unfolding settle_request read_value
  unread-threw r ok full unread_body = elim (Bool-cases r.is_json) [
    | inl js ↦ elim (Option-cases r.json_value) [
      | inl gone ↦ rw (settle_request, ok, full, js, gone) refl
      | inr (a, found) ↦ cc (js, found, unread_body)
    ]
    | inr other ↦ elim (Option-cases r.blob_value) [
      | inl gone ↦ rw (settle_request, ok, full, other, gone) refl
      | inr (a, found) ↦ cc (other, found, unread_body)
    ]
  ]

  unread-Throws :
      (r : Response SearchResponse Body)
      → is_ok_status r.status ≡ true
      → (not (nat_eq r.status 204) && is_unread r) ≡ true
      → Throws (answered r)
  unfolding Throws
  unread-Throws r ok unread_body =
      let (full, gone) = and_true (not (nat_eq r.status 204)) (is_unread r) unread_body in
      let none_401 : nat_eq r.status 401 ≡ false = ground arith in
      let none_403 : nat_eq r.status 403 ≡ false = ground arith in
      (
        error_thrown unread,
        ap (thrown_of unread) (unread-threw r ok (ground arith) gone),
        rw (none_401, none_403) refl,
      )

  failure-Throws : (r : FetchResult SearchResponse Body) → is_failure r ≡ true → Throws r
  unfolding Throws settle_request
  failure-Throws aborted h = (_, refl, refl)
  failure-Throws failed h = (_, refl, refl)
  failure-Throws (answered r) h = elim (Bool-cases (is_ok_status r.status)) [
    | inl ok ↦ unread-Throws r ok (rw ok at h)
    | inr bad ↦ answered-Throws r bad
  ]

  -- A search of the documents page that fails, in whatever way: no answer, a status that is not from
  -- 200 to 299, or a body that cannot be read. Then `request` throws, the page shows the error with its
  -- message and no table, under "Sign-in required" for the status 401, "Access denied" for 403, "Can't
  -- reach the API" where `fetch` failed but for a timeout, and "Something went wrong" otherwise; and
  -- "Try again" asks for the same page once more with the filters as they are.
  pub documents_view-failed :
      (r : FetchResult SearchResponse Body) (p : DocumentsPage)
      → is_failure r ≡ true
      → (t : Thrown) × (thrown_of unread (settle_request print timeout_text base path r) ≡ some t)
        × (let q = documents_step number locale (search_ended (thrown t)) p in
            let message = message_or "An unexpected error occurred." t in
            ((documents_view number locale q).notices
              ≡ U.error_block (heading_for r) message true ∷ [])
            × ((documents_view number locale q).table ≡ [])
            × ((documents_step number locale clicked_retry q).searches
                ≡ p.searches ++ search_params p.filters p.page ∷ []))
  unfolding documents_step documents_view settle run_search show_error Throws
  documents_view-failed r p bad =
      let (t, thrown_here, heading) = failure-Throws r bad in
      let message = message_or "An unexpected error occurred." t in
      (t, thrown_here, (ap (λ (h : String). U.error_block h message true ∷ []) heading, refl, refl))
