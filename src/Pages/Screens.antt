-- ===== src/Pages/Screens.antt =====
-- frontend/app: whole pages, put together of their parts, inside of the shell.
pub mod Links
pub mod Lists
pub mod Forms
pub mod Guarded
use go_analyze.Prelude.{
  ℕ, String, Bool, not, Option, List, [], ◌∷◌, ◌++◌, if◌then◌else◌, coalesce, is_empty, ◌<+>◌,
}
use go_analyze.Types.{DocumentProcessingResult}
use go_analyze.Ui.{Item, paragraph, field, link, button, loading_block, Thrown}
use go_analyze.Cache.{CachedDocument}
use go_analyze.Hooks.{AsyncState}
use go_analyze.Pages.Cases.{skill_label, case_view, CaseState}
use go_analyze.Pages.Detail.{metadata_view, detail_title}
use go_analyze.Pages.Download.{download_view, DownloadState}
use go_analyze.Pages.Processing.{processing_card, analysis_view}
use go_analyze.Pages.Analysis.{ScoreOps, JsonOps}
use go_analyze.Pages.Analysis.Pipeline.{PipelineRow}

-- `AppShell` around the content of a page, without its chrome.
unfoldable pub app_shell : Bool → Bool → List Item → List Item
app_shell ready authenticated children =
    if not ready
    then loading_block "Checking your session…" ∷ []
    else if not authenticated
    then loading_block "Redirecting to sign-in…" ∷ []
    else children

-- `GapNote`.
unfoldable pub gap_note : String → Item
gap_note children = paragraph ("BACKEND GAP — " <+> children)

-- The address that "View results" and "Open Analysis" lead to, and that of a document.
abbrev pub analysis_address : String → String
analysis_address document_id = "/analysis/" <+> document_id

abbrev pub document_address : String → String
document_address document_id = "/documents/" <+> document_id

-- The page of a document: what it knows, the two download buttons, each with its state, and the hook
-- of the processing.
module _ {Json Score : Type 0} (format : String → String) (print : ℕ → String) where
  unfoldable pub document_screen :
      String
      → Option CachedDocument
      → DownloadState
      → DownloadState
      → AsyncState (DocumentProcessingResult Json Score) Thrown
      → List Item
  document_screen document_id doc top below hook =
      paragraph (detail_title doc)
      ∷ paragraph document_id
      ∷ (download_view top
          ++ (link (analysis_address document_id) "Open Analysis"
              ∷ (metadata_view format print document_id doc
                  ++ (link "/documents/upload" "upload flow"
                      ∷ (download_view below
                          ++ (processing_card print hook
                              ++ link "/documents/upload" "Go to Upload" ∷ []))))))

  -- The page "Document Analysis": its heading, and what is below it with the pipeline.
  unfoldable pub analysis_screen :
      ScoreOps Score
      → JsonOps Json
      → String
      → Option String
      → AsyncState (DocumentProcessingResult Json Score) Thrown
      → List Item × List PipelineRow
  analysis_screen ops json document_id filename hook =
      let (items, rows) = analysis_view ops json print hook in
      (
        paragraph "Document Analysis"
            ∷ paragraph (coalesce filename "Document" <+> (" · " <+> document_id))
            ∷ link (document_address document_id) "Document details"
            ∷ items,
        rows,
      )

-- The list of the cases: the text that was typed.
unfoldable pub cases_screen : (String → String) → String → List Item
cases_screen encode case_id =
    paragraph "Cases"
    ∷ paragraph "Open a case by ID to review and assign it."
    ∷ gap_note
        "The backend does not expose GET /v1/cases or GET /v1/cases/{case_id}, so no case list or case detail can be fetched or displayed here. Only POST /v1/cases/{case_id}/assign exists today. This page intentionally does not show a fabricated case list — see FRONTEND_BACKEND_GAPS.md for the recommended endpoints."
    ∷ field "Case ID" case_id
    ∷ paragraph
        "Case IDs come from your case management workflow (e.g. referenced in an environmental review or document ingest). There is currently no in-app way to browse cases."
    ∷ button "Open" (is_empty case_id)
    ∷ []

-- The page of a case: `upper` is `toUpperCase`.
unfoldable pub case_screen :
    {R : Type 0} → (String → String) → (R → String) → String → CaseState R → List Item
case_screen upper stringify case_id s =
    paragraph ("Case " <+> case_id)
    ∷ paragraph case_id
    ∷ gap_note
        "No GET /v1/cases/{case_id} endpoint exists, so case details (status, history, linked documents) can't be displayed here. Only assignment is available. See FRONTEND_BACKEND_GAPS.md."
    ∷ paragraph "Assign Case"
    ∷ field "Skill / queue" (skill_label upper s.skill)
    ∷ case_view stringify s
