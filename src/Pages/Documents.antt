-- ===== src/Pages/Documents.antt =====
-- frontend/app/documents/page.tsx with frontend/components/search/SearchFilters.tsx: the list of the
-- documents.
pub mod Trace
pub mod Failures
use go_analyze.Prelude.{ℕ, String, true, Option, none, some, List, [], ◌∷◌, ◌++◌}
use go_analyze.Types.{SearchHit, SearchResponse, SearchParams}
use go_analyze.Hooks.{
  initial_async, start, settle, AsyncStatus, idle, loading, success, error, AsyncState, Ended,
}
use go_analyze.Ui.{show_error, Item, empty_block, skeleton, Thrown, other_thrown}
use go_analyze.Pages.Paging.{total_pages, pagination, search_params, PageControls, FiltersValue}

-- The state of the page, and the searches that it has sent.
pub record DocumentsPage : Type 0 where
  pub filters : FiltersValue
  pub page : ℕ
  pub list : AsyncState SearchResponse Thrown
  pub searches : List SearchParams

abbrev pub empty_filters : FiltersValue
empty_filters = record { q = ""; classification = ""; content_type = "" }

-- An edit in `DocumentFilters`.
pub data FilterEdit : Type 0 where
  edit_q edit_classification edit_content_type : String → FilterEdit

unfoldable pub edit_filters : FilterEdit → FiltersValue → FiltersValue
edit_filters (edit_q t) f = record f { q = t }
edit_filters (edit_classification t) f = record f { classification = t }
edit_filters (edit_content_type t) f = record f { content_type = t }

-- `runSearch`: `load` is that of `useDocumentsList`.
unfoldable pub run_search : ℕ → DocumentsPage → DocumentsPage
run_search next_page p = record p {
  page = next_page;
  list = start p.list;
  searches = p.searches ++ search_params p.filters next_page ∷ [];
}

abbrev pub first_documents : DocumentsPage
first_documents = record { filters = empty_filters; page = 1; list = initial_async; searches = [] }

-- After the effect of the first render.
unfoldable pub open_documents : DocumentsPage
unfolding run_search
open_documents = run_search 1 first_documents

-- What is shown below the filters: notices, the rows of the table, and the buttons of `Pagination`.
pub record DocumentsView : Type 0 where
  pub notices : List Item
  pub table : List SearchHit
  pub controls : Option PageControls

abbrev notice : Item → DocumentsView
notice i = record { notices = i ∷ []; table = []; controls = none }

abbrev nothing_below : DocumentsView
nothing_below = record { notices = []; table = []; controls = none }

module _ (number locale : ℕ → String) where
  abbrev pub rows_view : SearchResponse → List SearchHit → DocumentsView
  rows_view r [] = notice (
      empty_block "No documents found" "Try a different query or filter, or upload a new document.")
  rows_view r (h ∷ hs) = record {
    notices = [];
    table = h ∷ hs;
    controls = pagination number locale r.page (total_pages (some r)) (some r.total);
  }

  abbrev pub found_view : Option SearchResponse → DocumentsView
  found_view none = nothing_below
  found_view (some r) = rows_view r r.results

  -- `failure` is there whenever the status is `error`.
  abbrev pub failed_view : Option Thrown → DocumentsView
  failed_view none = notice (show_error none true other_thrown)
  failed_view (some e) = notice (show_error none true e)

  abbrev pub listed_view : AsyncStatus → Option SearchResponse → Option Thrown → DocumentsView
  listed_view idle value failure = nothing_below
  listed_view loading value failure = notice (skeleton 8)
  listed_view success value failure = found_view value
  listed_view error value failure = failed_view failure

  unfoldable pub documents_view : DocumentsPage → DocumentsView
  documents_view p = listed_view p.list.status p.list.value p.list.failure

  -- What a user does, and the end of a search. The buttons of `Pagination` count only where they are
  -- shown and enabled, "Try again" only after an error.
  pub data DocumentsEvent : Type 0 where
    filtered : FilterEdit → DocumentsEvent
    submitted clicked_prev clicked_next clicked_retry : DocumentsEvent
    search_ended : Ended SearchResponse Thrown → DocumentsEvent

  abbrev pub go_to : Option ℕ → DocumentsPage → DocumentsPage
  go_to none p = p
  go_to (some n) p = run_search n p

  abbrev pub prev_of : Option PageControls → Option ℕ
  prev_of none = none
  prev_of (some c) = c.prev_page

  abbrev pub next_of : Option PageControls → Option ℕ
  next_of none = none
  next_of (some c) = c.next_page

  abbrev pub retry_of : AsyncStatus → ℕ → Option ℕ
  retry_of error page = some page
  retry_of _ page = none

  unfoldable pub documents_step : DocumentsEvent → DocumentsPage → DocumentsPage
  unfolding documents_view edit_filters run_search
  documents_step (filtered e) p = record p { filters = edit_filters e p.filters }
  documents_step submitted p = run_search 1 p
  documents_step clicked_prev p = go_to (prev_of (documents_view p).controls) p
  documents_step clicked_next p = go_to (next_of (documents_view p).controls) p
  documents_step clicked_retry p = go_to (retry_of p.list.status p.page) p
  documents_step (search_ended ended) p = record p { list = settle ended p.list }

  abbrev pub documents_run : List DocumentsEvent → DocumentsPage → DocumentsPage
  documents_run [] p = p
  documents_run (e ∷ es) p = documents_run es (documents_step e p)
