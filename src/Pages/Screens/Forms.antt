-- ===== src/Pages/Screens/Forms.antt =====
-- frontend/app/environmental-reviews/page.tsx and frontend/components/search/SearchFilters.tsx: the
-- forms, as they are shown for a state.
use go_analyze.Prelude.{
  String, false, ◌||◌, Option, none, some, List, [], ◌∷◌, ◌++◌, map, if◌then◌else◌,
}
use go_analyze.Types.{classification_levels, level_text, ClassificationLevel}
use go_analyze.Ui.{when_text, Item, paragraph, field, link, button, banner}
use go_analyze.Hooks.{is_loading}
use go_analyze.Pages.Format.{classification_label}
use go_analyze.Pages.Paging.{FiltersValue}
use go_analyze.Pages.Reviews.{missing_fields, shown_result, ReviewState}

-- A row of the list of document ids: the id, and the button that removes it.
abbrev id_rows : List String → List Item
id_rows [] = []
id_rows (id ∷ ids) = paragraph id ∷ button "" false ∷ id_rows ids

abbrev result_text : {R : Type 0} → (R → String) → Option R → String
result_text pretty none =
    "Submit a review request to see the backend's response here. The response schema is open-ended (findings, risks, and recommendations as returned by the backend), so it is shown as-received rather than mapped to assumed fields."
result_text pretty (some r) = pretty r

-- The page of the reviews; `pretty` is `JSON.stringify(result, null, 2)`.
unfoldable pub review_screen : {R : Type 0} → (R → String) → ReviewState R → List Item
review_screen pretty s =
    paragraph "Environmental Reviews"
    ∷ paragraph "Submit a project for environmental review via POST /v1/environmental-reviews."
    ∷ paragraph "New Review Request"
    ∷ field "Tenant ID" s.form.tenant_id
    ∷ field "Case ID (UUID)" s.form.case_id
    ∷ field "Project type" s.form.project_type
    ∷ field "Location" s.form.location
    ∷ field "Applicant" s.form.applicant
    ∷ field "Supporting document IDs (UUID)" s.draft_doc_id
    ∷ button "Add" false
    ∷ link "/documents" "Documents"
    ∷ (id_rows s.document_ids
        ++ (when_text s.error_text (banner "error")
            ++ button (if is_loading s.status then "Submitting…" else "Submit for Review")
                (missing_fields s || is_loading s.status)
              ∷ paragraph "Result"
              ∷ paragraph (result_text pretty (shown_result s))
              ∷ []))

-- The choices of the classification: the value and the text of each.
unfoldable pub classification_options : List (String × String)
classification_options =
    ("", "All levels")
    ∷ map (λ (l : ClassificationLevel). (level_text l, classification_label (level_text l)))
        classification_levels

-- `DocumentFilters`, for the values of its inputs.
unfoldable pub filters_form : FiltersValue → List Item
filters_form v =
    field "Query" v.q
    ∷ field "Classification" v.classification
    ∷ field "Content type" v.content_type
    ∷ button "Search" false
    ∷ []
