-- ===== src/Tests/ApiRuns.antt =====
-- frontend/lib/api.ts and frontend/lib/documentCache.ts: the theorems at concrete inputs.
use go_analyze.Prelude.{
  ◌⊎◌, ℕ, ◌≤◌, String, ◌≡◌, true, none, some, List, [], ◌∷◌, nat_eq, if◌then◌else◌, ◌<+>◌, ◌++◌,
  refl,
}
use go_analyze.Api.Url.{build_url, QueryValue, text, number}
use go_analyze.Api.Url.Query.{get_param, count_key, build_url-query, AllSilent, LastSays}
use go_analyze.Api.Request.{settle_request, Response, answered}
use go_analyze.Ui as U
use go_analyze.Pages.Documents.Failures.{documents_view-failed, thrown_of}
use go_analyze.Pages.Documents.{
  documents_step, documents_view, open_documents, run_search, empty_filters, search_ended,
  clicked_retry,
}
use go_analyze.Pages.Paging.{search_params}
use go_analyze.Ui.{Thrown, message_or}
use go_analyze.Hooks.{thrown}
use go_analyze.Types.{SearchResponse}

abbrev resolve : String → String → String
resolve path base = base <+> path

abbrev print : ℕ → String
print n = if nat_eq n 2 then "2" else "1"

abbrev entries : List (String × QueryValue)
entries = ("page", number 1) ∷ ("q", text "") ∷ ("page", number 2) ∷ []

build_url-query_example :
    let params = (build_url resolve print "http://api" "/v1" entries).search_params in
    (count_key "page" params ≤ 1)
    × ((AllSilent "page" entries × (get_param "page" params ≡ none))
        ⊎ ((s : String) × LastSays print "page" s entries × (get_param "page" params ≡ some s)))
build_url-query_example = build_url-query resolve print "http://api" "/v1" entries "page"

abbrev unread : Response String String
unread = record {
  status = 422;
  is_json = true;
  json_value = none;
  blob_value = none;
  validation_json = none;
  error_body = none;
}

abbrev refused : Response SearchResponse String
refused = record {
  status = 401;
  is_json = true;
  json_value = none;
  blob_value = none;
  validation_json = none;
  error_body = some "{}";
}

documents_view-failed_example :
    (t : Thrown) × (thrown_of "unread"
        (settle_request print "30000" "http://api" "/v1" (answered refused))
      ≡ some t)
    × (let q = documents_step print print (search_ended (thrown t)) open_documents in
        let message = message_or "An unexpected error occurred." t in
        ((documents_view print print q).notices
          ≡ U.error_block "Sign-in required" message true ∷ [])
        × ((documents_view print print q).table ≡ [])
        × ((documents_step print print clicked_retry q).searches
            ≡ open_documents.searches ++ search_params empty_filters 1 ∷ []))
unfolding open_documents run_search
documents_view-failed_example =
    documents_view-failed print print print "30000" "http://api" "/v1" "unread" (answered refused)
      open_documents refl
