-- ===== src/Pages/AuditRows.antt =====
-- frontend/components/audit/AuditTable.tsx and frontend/app/audit/page.tsx: the expanded row, and the
-- page that is asked for.
use go_analyze.Prelude.{
  ℕ, String, ◌≡◌, refl, sym, ◌∙◌, inl, inr, Bool, true, false, not, Option, none, some, List, [],
  ◌∷◌, ◌++◌, eq_iff, eq_refl, ◌==◌, if◌then◌else◌, Bool-cases, coalesce,
}
use go_analyze.Api.Endpoints.{list_audit, Endpoint}

-- `expanded`: the id of the event whose details are shown.
unfoldable pub is_open : String → Option String → Bool
is_open id none = false
is_open id (some open_id) = open_id == id

-- A click on the row of an event.
unfoldable pub click_row : String → Option String → Option String
click_row id expanded = if is_open id expanded then none else some id

abbrev pub click_rows : List String → Option String → Option String
click_rows [] expanded = expanded
click_rows (id ∷ ids) expanded = click_rows ids (click_row id expanded)

-- The request of `load` of `useAudit`, with its default values.
unfoldable pub load_audit : Option ℕ → Option ℕ → Endpoint
load_audit page page_size = list_audit (some (coalesce page 1)) (some (coalesce page_size 20))

-- The page that the audit page has asked for last, and the requests that it has sent.
pub record AuditPage : Type 0 where
  pub page : ℕ
  pub requests : List Endpoint

-- The effect of the first render.
unfoldable pub open_audit : AuditPage
open_audit = record { page = 1; requests = load_audit (some 1) (some 25) ∷ [] }

unfoldable pub go_to_page : ℕ → AuditPage → AuditPage
go_to_page p s = record { page = p; requests = s.requests ++ load_audit (some p) (some 25) ∷ [] }

-- "Refresh" and "Try again" ask for the same page.
unfoldable pub refresh_page : AuditPage → AuditPage
refresh_page s = go_to_page s.page s

is_open_unique :
    (a b : String) (expanded : Option String)
    → is_open a expanded ≡ true
    → is_open b expanded ≡ true
    → a ≡ b
unfolding is_open
is_open_unique a b none h k = cc
is_open_unique a b (some c) h k = sym ((eq_iff c a).0 h) ∙ (eq_iff c b).0 k

no_row : (a clicked : String) → is_open a none ≡ true → a ≡ clicked
unfolding is_open
no_row a clicked h = cc

is_open-click_row_self :
    (id : String) (expanded : Option String)
    → is_open id (click_row id expanded) ≡ not (is_open id expanded)
unfolding click_row
is_open-click_row_self id expanded = elim (Bool-cases (is_open id expanded)) [
  | inl shown ↦ rw (click_row, shown) (unfold is_open in refl)
  | inr hidden ↦ rw (click_row, hidden) (unfold is_open in eq_refl id)
]

-- Whatever rows are clicked: details are shown of at most one event, and one more click on a row
-- turns the details of its event on or off and leaves no others shown.
click_rows_unique :
    (ids : List String) (a b clicked : String)
    → (is_open a (click_rows ids none) ≡ true → is_open b (click_rows ids none) ≡ true → a ≡ b)
      × (is_open clicked (click_row clicked (click_rows ids none))
          ≡ not (is_open clicked (click_rows ids none)))
      × (is_open a (click_row clicked (click_rows ids none)) ≡ true → a ≡ clicked)
unfolding click_row
click_rows_unique ids a b clicked =
    let expanded = click_rows ids none in
    (
      is_open_unique a b expanded,
      is_open-click_row_self clicked expanded,
      λ h. elim (Bool-cases (is_open clicked expanded)) [
        | inl shown ↦
            let e : click_row clicked expanded ≡ none = rw (click_row, shown) in
            let f : is_open a none ≡ true = rw e at h in no_row a clicked f
        | inr hidden ↦
            let e : click_row clicked expanded ≡ some clicked = rw (click_row, hidden) in
            let f : is_open a (some clicked) ≡ true = rw e at h in
            is_open_unique a clicked (some clicked) f (unfold is_open in eq_refl clicked)
      ],
    )
