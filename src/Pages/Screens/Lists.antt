-- ===== src/Pages/Screens/Lists.antt =====
-- frontend/app: the pages that list documents, events and answers, and the chrome around them.
use go_analyze.Pages.Analysis.{JsonOps}
use go_analyze.Pages.Paging.{search_view, SearchView}
use go_analyze.Pages.System.{SystemState}
use go_analyze.Pages.SystemView.{status_card, metrics_card}
use go_analyze.Prelude.{
  ℕ, String, Bool, false, Option, none, some, List, [], ◌∷◌, ◌++◌, text_or, ◌<+>◌,
}
use go_analyze.Types.{SearchResponse, AuditEventListResponse}
use go_analyze.Ui.{when_some, Item, paragraph, field, link, button, banner, Thrown}
use go_analyze.Hooks.{AsyncStatus, AsyncState}
use go_analyze.Hooks.Rag.{RagReply, response, failed, failed_otherwise, AskPage}
use go_analyze.Pages.AuditView.{audit_view, AuditView}
use go_analyze.Pages.Breadcrumbs.{Crumb}
use go_analyze.Pages.Documents.{documents_view, DocumentsPage, DocumentsView}
use go_analyze.Pages.Research.{research_history, ask_button, ResponseOps}
use go_analyze.Pages.Shell.{collapse_label}
use go_analyze.Pages.Screens.{gap_note}

-- `data?.backend ?? "OpenSearch / database fallback"`.
abbrev backend_of : Option SearchResponse → String
backend_of none = "OpenSearch / database fallback"
backend_of (some r) = r.backend

-- The page of the documents: its heading, and what is below the filters.
unfoldable pub documents_screen :
    (number locale : ℕ → String) → DocumentsPage → List Item × DocumentsView
documents_screen number locale p = (
  paragraph "Documents"
      ∷ paragraph (
          "Full-text search across ingested documents, backed by "
          <+> (backend_of p.list.value <+> "."))
      ∷ link "/documents/upload" "Upload Document"
      ∷ gap_note
          "There is no GET /v1/documents listing endpoint. This page uses GET /v1/documents/search with an empty query as the real, working equivalent — see FRONTEND_BACKEND_GAPS.md."
      ∷ [],
  documents_view number locale p,
)

-- The line above the results of a search; `locale` is `toLocaleString`.
unfoldable pub result_line : (ℕ → String) → SearchResponse → String
result_line locale r =
    locale r.total
    <+> (" result(s) for “" <+> (text_or r.query "(all documents)" <+> ("” via " <+> r.backend)))

-- The page "AI Research", below the citations: the field, the banner of the hook's exception, the
-- button, and the history.
abbrev rag_message : {R : Type 0} → RagReply R → String
rag_message (response r) = ""
rag_message (failed m) = m
rag_message failed_otherwise = ""

unfoldable pub research_screen :
    {R : Type 0}
    → (ℕ → String)
    → ResponseOps R
    → (String → String)
    → AskPage R
    → List Item × List (List Item)
research_screen print ops trim p = (
  paragraph "AI Research"
      ∷ paragraph
          "Ask questions answered with server-verified evidence citations via POST /v1/rag/answer."
      ∷ field "Question" p.question
      ∷ (when_some p.rag.failure (λ e. banner "error" (rag_message e) ∷ [])
          ++ ask_button trim p ∷ []),
  research_history print ops p.rag.history,
)

-- The audit log.
unfoldable pub audit_screen :
    {Json : Type 0}
    → (format : String → String) → (stringify : List (String × Json) → String)
    → (number locale : ℕ → String) → Option String
    → AsyncState (AuditEventListResponse Json) Thrown
    → List Item × AuditView format stringify
audit_screen format stringify number locale expanded s = (
  paragraph "Audit Log"
      ∷ paragraph "Governance and traceability events from GET /v1/audit."
      ∷ button "Refresh" false
      ∷ [],
  audit_view format stringify number locale expanded s,
)

-- The heading of the dashboard.
unfoldable pub dashboard_heading : List Item
dashboard_heading =
    paragraph "Dashboard"
    ∷ paragraph "Operational overview of document intelligence, governance, and system health."
    ∷ link "/documents/upload" "Upload Document"
    ∷ link "/search" "Search"
    ∷ link "/ai-research" "AI Research"
    ∷ []

-- `RiskOverview` and `ProcessingStatus`.
unfoldable pub risk_overview : List Item
risk_overview =
    paragraph "Risk Overview"
    ∷ gap_note
        "No endpoint aggregates risk scores across documents. Recommended: GET /v1/analytics/risk-summary. See FRONTEND_BACKEND_GAPS.md."
    ∷ paragraph "Per-document risk scores are available on each document's"
    ∷ link "/documents" "Analysis page"
    ∷ paragraph "after processing."
    ∷ []

unfoldable pub processing_status : List Item
processing_status =
    paragraph "Processing Status"
    ∷ gap_note
        "No endpoint reports aggregate processing status yet. Recommended: GET /v1/documents/processing-status returning per-stage counts. See FRONTEND_BACKEND_GAPS.md."
    ∷ paragraph "You can trigger and inspect processing for an individual document from its"
    ∷ link "/documents" "document page"
    ∷ []

-- The page of the upload, above its form.
unfoldable pub upload_heading : List Item
upload_heading =
    paragraph "Upload Document"
    ∷ paragraph
        "Ingests a document record, uploads its content, and optionally runs the processing pipeline — using the real backend endpoints in sequence."
    ∷ gap_note
        "The ingest schema requires an object_uri, which is normally assigned by object storage. This frontend has no direct MinIO/S3 client, so it sends a provisional client-generated URI. Recommended: a pre-signed upload endpoint (e.g. POST /v1/documents/upload-url) so the backend controls object storage placement. See FRONTEND_BACKEND_GAPS.md."
    ∷ []

-- The header of the shell: the label of its second button, and the crumbs.
unfoldable pub header_items : Bool → List Crumb → List Item → List Item × List Crumb
header_items collapsed crumbs menu =
    (button "Open navigation" false ∷ button (collapse_label collapsed) false ∷ menu, crumbs)

-- The head of the navigation.
unfoldable pub sidebar_head : String → String → List Item
sidebar_head app_name app_tagline =
    paragraph app_name ∷ paragraph app_tagline ∷ button "Close navigation" false ∷ []

-- The search page: its heading, whether it prompts for a search, and what is below.
unfoldable pub search_screen :
    Bool → AsyncStatus → Option SearchResponse → List Item × (Bool × SearchView)
search_screen has_searched status value = (
  paragraph "Search"
      ∷ paragraph
          "Full-text document search with relevance ranking and highlighting, via GET /v1/documents/search."
      ∷ [],
  search_view has_searched status value,
)

-- The system page; an answer of /health or /ready is shown by its entries.
unfoldable pub system_screen :
    {Json : Type 0}
    → JsonOps Json
    → (format : String → String) → (Json → Option String)
    → (Option Json → String)
    → String
    → SystemState (List (String × Json)) (List (String × Json)) Json Thrown
    → List Item
system_screen ops format as_text pretty api_base_url s =
    paragraph "System Health"
    ∷ paragraph ("Live status from " <+> (api_base_url <+> "."))
    ∷ button "Refresh" false
    ∷ paragraph "API Health (/health)"
    ∷ (status_card ops format s.health
        ++ (paragraph "Readiness (/ready)"
            ∷ (status_card ops format s.ready ++ metrics_card ops format as_text pretty s.metrics)))
