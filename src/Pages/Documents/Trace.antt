-- ===== src/Pages/Documents/Trace.antt =====
-- frontend/app/documents/page.tsx: what the page asks for, over any history.
use go_analyze.Hooks.{AsyncStatus, idle, loading, success, error}
use go_analyze.Ui.{Thrown}
use go_analyze.Prelude.{
  ℕ, ◌≤◌, String, ◌≡◌, refl, Option, none, some, List, [], ◌∷◌, ◌++◌, arith, All, All-append,
}
use go_analyze.Types.{SearchHit, SearchResponse, SearchParams}
use go_analyze.Hooks.History.{async_step-IsShowable, initial-IsShowable, started, ended, IsShowable}
use go_analyze.Pages.Paging.{total_pages, pagination, search_params, PageControls, FiltersValue}
use go_analyze.Pages.Documents.{
  run_search, first_documents, open_documents, rows_view, listed_view, documents_view, go_to,
  prev_of, next_of, retry_of, documents_step, documents_run, DocumentsPage, DocumentsEvent,
  filtered, submitted, clicked_prev, clicked_next, clicked_retry, search_ended,
}

-- A search for a page from 1 on, of 20 documents.
abbrev pub IsSearch : SearchParams → Type 0
IsSearch s = (s.page_size ≡ some 20) × ((n : ℕ) × (1 ≤ n) × (s.page ≡ some n))

-- The page that is kept is that of the last search; the searches are right; and the state of the hook
-- can be shown.
pub record IsAsking (p : DocumentsPage) : Type 0 where
  pub first_or_later : 1 ≤ p.page
  pub last_search :
      (earlier : List SearchParams) × (f : FiltersValue) × (p.searches
        ≡ earlier ++ search_params f p.page ∷ [])
  pub searches_right : All IsSearch p.searches
  pub showable : IsShowable p.list

run_search-IsAsking :
    (n : ℕ) (p : DocumentsPage)
    → 1 ≤ n
    → All IsSearch p.searches
    → IsShowable p.list
    → IsAsking (run_search n p)
unfolding run_search search_params
run_search-IsAsking n p above right shown = record {
  first_or_later = above;
  last_search = (p.searches, p.filters, refl);
  searches_right = All-append IsSearch p.searches _ right ((refl, (n, above, refl)), tt);
  showable = async_step-IsShowable started p.list shown;
}

module _ (number locale : ℕ → String) where
  go_to-IsAsking :
      (n : Option ℕ) (p : DocumentsPage)
      → ((m : ℕ) → n ≡ some m → 1 ≤ m)
      → IsAsking p
      → IsAsking (go_to number locale n p)
  go_to-IsAsking none p above h = h
  go_to-IsAsking (some n) p above h =
      run_search-IsAsking n p (above n refl) h.searches_right h.showable

  -- A page that the buttons lead to.
  abbrev LeadsUp : Option PageControls → Type 0
  LeadsUp c =
      ((m : ℕ) → prev_of number locale c ≡ some m → 1 ≤ m)
      × ((m : ℕ) → next_of number locale c ≡ some m → 1 ≤ m)

  pagination-LeadsUp :
      (page pages : ℕ) (total : Option ℕ) → LeadsUp (pagination number locale page pages total)
  unfolding pagination
  pagination-LeadsUp page pages total = (λ m h. ground (arith, h), λ m h. ground (arith, h))

  none-LeadsUp : LeadsUp none
  none-LeadsUp = (λ m h. cc, λ m h. cc)

  rows_view-LeadsUp :
      (r : SearchResponse) (hits : List SearchHit)
      → LeadsUp (rows_view number locale r hits).controls
  rows_view-LeadsUp r [] = none-LeadsUp
  rows_view-LeadsUp r (h ∷ hs) = pagination-LeadsUp r.page (total_pages (some r)) (some r.total)

  listed_view-LeadsUp :
      (status : AsyncStatus) (value : Option SearchResponse) (failure : Option Thrown)
      → LeadsUp (listed_view number locale status value failure).controls
  listed_view-LeadsUp idle value failure = none-LeadsUp
  listed_view-LeadsUp loading value failure = none-LeadsUp
  listed_view-LeadsUp success none failure = none-LeadsUp
  listed_view-LeadsUp success (some r) failure = rows_view-LeadsUp r r.results
  listed_view-LeadsUp error value none = none-LeadsUp
  listed_view-LeadsUp error value (some e) = none-LeadsUp

  documents_view-LeadsUp : (p : DocumentsPage) → LeadsUp (documents_view number locale p).controls
  unfolding documents_view
  documents_view-LeadsUp p = listed_view-LeadsUp p.list.status p.list.value p.list.failure

  retry_of_kept :
      (status : AsyncStatus) (page m : ℕ)
      → retry_of number locale status page ≡ some m
      → 1 ≤ page
      → 1 ≤ m
  retry_of_kept idle page m h above = cc
  retry_of_kept loading page m h above = cc
  retry_of_kept success page m h above = cc
  retry_of_kept error page m h above = ground arith

  documents_step-IsAsking :
      (e : DocumentsEvent number locale) (p : DocumentsPage)
      → IsAsking p
      → IsAsking (documents_step number locale e p)
  unfolding documents_step
  documents_step-IsAsking (filtered e) p h = record {
    first_or_later = h.first_or_later;
    last_search = h.last_search;
    searches_right = h.searches_right;
    showable = h.showable;
  }
  documents_step-IsAsking submitted p h =
      run_search-IsAsking 1 p (ground arith) h.searches_right h.showable
  documents_step-IsAsking clicked_prev p h = go_to-IsAsking _ p (documents_view-LeadsUp p).0 h
  documents_step-IsAsking clicked_next p h = go_to-IsAsking _ p (documents_view-LeadsUp p).1 h
  documents_step-IsAsking clicked_retry p h =
      go_to-IsAsking _ p (λ m e. retry_of_kept p.list.status p.page m e h.first_or_later) h
  documents_step-IsAsking (search_ended r) p h = record {
    first_or_later = h.first_or_later;
    last_search = h.last_search;
    searches_right = h.searches_right;
    showable = async_step-IsShowable (ended r) p.list h.showable;
  }

  documents_run-step :
      (es : List (DocumentsEvent number locale)) (p : DocumentsPage)
      → IsAsking p
      → IsAsking (documents_run number locale es p)
  documents_run-step [] p h = h
  documents_run-step (e ∷ es) p h =
      documents_run-step es (documents_step number locale e p) (documents_step-IsAsking e p h)

  open_documents-IsAsking : IsAsking open_documents
  unfolding open_documents
  open_documents-IsAsking =
      run_search-IsAsking 1 first_documents (ground arith) tt initial-IsShowable

  -- Whatever filters are edited, buttons are clicked and searches end, in any order and whatever the
  -- server answers: every search is for 20 documents of a page from 1 on, the page that "Try again"
  -- asks for is that of the last search, and an error has its exception to show, a success its result.
  pub documents_run-IsAsking :
      (es : List (DocumentsEvent number locale))
      → IsAsking (documents_run number locale es open_documents)
  documents_run-IsAsking es = documents_run-step es open_documents open_documents-IsAsking
