-- ===== src/Pages/Paging.antt =====
-- frontend/components/ui/Pagination.tsx and the pages that use it: frontend/app/search/page.tsx,
-- frontend/app/documents/page.tsx and frontend/app/audit/page.tsx.
use go_analyze.Prelude.{
  ℕ, ◌+◌, ◌-◌, ◌/◌, ◌≤◌, max, String, ◌≡◌, ◌↔◌, Bool, not, Option, none, some, List, [], ◌∷◌, arith,
  leb, if◌then◌else◌, or_null, ◌<+>◌,
}
use go_analyze.Types.{SearchHit, SearchResponse, SearchParams}
use go_analyze.Hooks.{AsyncStatus, idle, loading, success, error}

-- `Math.max(1, Math.ceil(total / page_size))`, for a page size that is not 0; 1 without data.
unfoldable pub total_pages : Option SearchResponse → ℕ
total_pages none = 1
total_pages (some r) = max 1 ((r.total + (r.page_size - 1)) / r.page_size)

pub record PageControls : Type 0 where
  pub position : String
  pub prev_page : Option ℕ  -- what "Prev" hands to `onChange`; `none` where it is disabled
  pub next_page : Option ℕ

-- `Pagination`; `none` where it shows nothing. `number` is `String` and `locale` is
-- `toLocaleString` on numbers.
unfoldable pub pagination : (ℕ → String) → (ℕ → String) → ℕ → ℕ → Option ℕ → Option PageControls
pagination number locale page pages total =
    if leb pages 1
    then none
    else some (record {
      position =
          "Page "
          <+> (number page
              <+> (" of "
                  <+> (number pages
                      <+> elim total [ none ↦ "" | some t ↦ " · " <+> (locale t <+> " total") ])));
      prev_page = if leb page 1 then none else some (page - 1);
      next_page = if leb pages page then none else some (page + 1);
    })

-- The filters of the two pages that search.
pub record FiltersValue : Type 0 where
  pub q : String
  pub classification : String
  pub content_type : String

-- What `runSearch` asks for.
unfoldable pub search_params : FiltersValue → ℕ → SearchParams
search_params f page = record {
  q = some f.q;
  page = some page;
  page_size = some 20;
  classification = or_null f.classification;
  content_type = or_null f.content_type;
}

-- What the search page shows under its filters.
pub data SearchView : Type 0 where
  table_skeleton error_block no_results nothing_shown : SearchView
  results_table : List SearchHit → ℕ → ℕ → SearchView

unfoldable pub success_view : Option SearchResponse → SearchView
success_view none = nothing_shown
success_view (some r) =
    let pages = total_pages (some r) in
    elim r.results [ [] ↦ no_results | h ∷ hs ↦ results_table (h ∷ hs) r.page pages ]

unfoldable pub status_view : AsyncStatus → Option SearchResponse → SearchView
status_view idle value = nothing_shown
status_view loading value = table_skeleton
status_view error value = error_block
status_view success value = success_view value

-- The prompt to search, shown until the first search, and what is shown below it.
unfoldable pub search_view : Bool → AsyncStatus → Option SearchResponse → Bool × SearchView
search_view has_searched status value = (not has_searched, status_view status value)

-- The page that "Try again" asks for: `data?.page ?? 1`.
unfoldable pub retry_page : Option SearchResponse → ℕ
retry_page value = elim value [ none ↦ 1 | some r ↦ r.page ]

-- A page number that there is.
abbrev pub IsPage : ℕ → ℕ → Type 0
IsPage page pages = (1 ≤ page) × (page ≤ pages)

-- From a page that there is, the buttons lead only to pages that there are, the next one and the one
-- before; "Next" is offered exactly if there is a page after, and "Prev" exactly if there is one
-- before.
pagination-IsPage :
    (number locale : ℕ → String) (page pages : ℕ) (total : Option ℕ) (c : PageControls)
    → IsPage page pages
    → pagination number locale page pages total ≡ some c
    → ((p : ℕ) → c.next_page ≡ some p → IsPage p pages × (p ≡ page + 1))
      × ((p : ℕ) → c.prev_page ≡ some p → IsPage p pages × (p + 1 ≡ page))
      × ((c.next_page ≡ none) ↔ (page ≡ pages))
      × ((c.prev_page ≡ none) ↔ (page ≡ 1))
unfolding pagination
pagination-IsPage number locale page pages total c here shown =
    let e : (c.prev_page ≡ (if leb page 1 then none else some (page - 1)))
        × (c.next_page ≡ (if leb pages page then none else some (page + 1))) =
      ground arith in
    rw (e.0, e.1)
      (
        λ p h. ground arith,
        λ p h. ground arith,
        (λ h. ground arith, λ h. ground arith),
        (λ h. ground arith, λ h. ground arith),
      )
