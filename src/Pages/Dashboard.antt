-- ===== src/Pages/Dashboard.antt =====
-- frontend/app/dashboard/page.tsx and frontend/components/dashboard: the start page of a session.
use go_analyze.Prelude.{
  ℕ, String, Bool, true, false, Option, none, some, List, [], ◌∷◌, map, if◌then◌else◌, coalesce,
  take, ◌<+>◌,
}
use go_analyze.Types.{level_text, SearchHit, SearchResponse, AuditEvent, AuditEventListResponse}
use go_analyze.Hooks.{
  initial_async, start, settle, AsyncStatus, idle, loading, success, error, AsyncState, Ended,
}
use go_analyze.Ui.{
  show_error, Item, paragraph, field, badge, link, loading_block, empty_block, Thrown, other_thrown,
}
use go_analyze.Pages.Format.{classification_label}
use go_analyze.Pages.Analysis.{spaced}

-- A figure of `DashboardStats`: its label and its value.
abbrev figure : String → Bool → String → Item
figure label waits value = field label (if waits then "—" else value)

-- `DashboardStats`. `locale` is `toLocaleString` on numbers.
unfoldable pub dashboard_stats : (ℕ → String) → Option ℕ → Option Bool → Option ℕ → Bool → List Item
dashboard_stats locale total_documents api_ready audit_total waits =
    figure "Documents indexed" waits (elim total_documents [ none ↦ "—" | some n ↦ locale n ])
    ∷ figure "Audit events logged" waits (elim audit_total [ none ↦ "—" | some n ↦ locale n ])
    ∷ figure "API readiness" waits
        (elim api_ready [ none ↦ "Unknown" | some b ↦ if b then "Ready" else "Not ready" ])
    ∷ figure "API status" waits "Live"
    ∷ []

-- A row of `RecentDocuments`; `relative` is `formatRelativeTime`.
abbrev recent_row : (String → String) → SearchHit → List Item
recent_row relative h =
    link ("/documents/" <+> h.document_id) h.filename
    ∷ paragraph (relative h.created_at)
    ∷ badge ("badge-classification-" <+> level_text h.classification)
        (classification_label (level_text h.classification))
    ∷ []

-- `RecentDocuments`: notices, and the rows.
unfoldable pub recent_documents :
    (String → String) → AsyncStatus → List SearchHit → Option Thrown → List Item × List (List Item)
recent_documents relative idle hits failure = ([], [])
recent_documents relative loading hits failure =
    (loading_block "Loading recent documents…" ∷ [], [])
recent_documents relative error hits failure =
    (show_error none true (coalesce failure other_thrown) ∷ [], [])
recent_documents relative success [] failure =
    (empty_block "No documents yet" "Upload your first document to see it appear here." ∷ [], [])
recent_documents relative success (h ∷ hs) failure =
    ([], map (recent_row relative) (take 6 (h ∷ hs)))

-- The hooks of the page, and the answer of `/ready`.
pub record Dashboard (Json : Type 0) : Type 0 where
  pub search : AsyncState SearchResponse Thrown
  pub audit : AsyncState (AuditEventListResponse Json) Thrown
  pub api_ready : Option Bool

-- The ends of the requests, and the two buttons "Try again", shown after an error.
pub data DashboardEvent (Json : Type 0) : Type 0 where
  search_ended : Ended SearchResponse Thrown → DashboardEvent Json
  audit_ended : Ended (AuditEventListResponse Json) Thrown → DashboardEvent Json
  readiness : Bool → DashboardEvent Json
  search_again audit_again : DashboardEvent Json

abbrev total_of : Option SearchResponse → Option ℕ
total_of none = none
total_of (some r) = some r.total

abbrev hits_of : Option SearchResponse → List SearchHit
hits_of none = []
hits_of (some r) = r.results

-- `loading` of the page.
abbrev pub is_waiting : AsyncStatus → AsyncStatus → Bool
is_waiting loading loading = true
is_waiting _ _ = false

module _ {Json : Type 0} where
  -- An entry of `ActivityFeed`.
  abbrev activity_row : (String → String) → AuditEvent Json → List Item
  activity_row relative e =
      paragraph (e.actor <+> (" " <+> (spaced e.action <+> (" on " <+> e.resource_type))))
      ∷ paragraph (relative e.timestamp)
      ∷ []

  -- `ActivityFeed`.
  unfoldable pub activity_feed :
      (String → String)
      → AsyncStatus
      → List (AuditEvent Json)
      → Option Thrown
      → List Item × List (List Item)
  activity_feed relative idle events failure = ([], [])
  activity_feed relative loading events failure =
      (loading_block "Loading recent activity…" ∷ [], [])
  activity_feed relative error events failure =
      (show_error none true (coalesce failure other_thrown) ∷ [], [])
  activity_feed relative success [] failure = (
    empty_block "No activity yet" "Audit events will appear here as the platform is used." ∷ [],
    [],
  )
  activity_feed relative success (e ∷ es) failure =
      ([], map (activity_row relative) (take 6 (e ∷ es)))

  abbrev first_dashboard : Dashboard Json
  first_dashboard = record { search = initial_async; audit = initial_async; api_ready = none }

  -- The effect of the first render starts the three requests.
  unfoldable pub open_dashboard : Dashboard Json
  open_dashboard = record first_dashboard {
    search = start initial_async;
    audit = start initial_async;
  }

  unfoldable pub dashboard_step : DashboardEvent Json → Dashboard Json → Dashboard Json
  dashboard_step (search_ended r) d = record d { search = settle r d.search }
  dashboard_step (audit_ended r) d = record d { audit = settle r d.audit }
  dashboard_step (readiness b) d = record d { api_ready = some b }
  dashboard_step search_again d = record d { search = start d.search }
  dashboard_step audit_again d = record d { audit = start d.audit }

  abbrev audit_total_of : Option (AuditEventListResponse Json) → Option ℕ
  audit_total_of none = none
  audit_total_of (some r) = some r.total

  abbrev events_of : Option (AuditEventListResponse Json) → List (AuditEvent Json)
  events_of none = []
  events_of (some r) = r.items

  -- The figures, the documents and the activity.
  unfoldable pub dashboard_view :
      (ℕ → String)
      → (String → String)
      → Dashboard Json
      → List Item × (List Item × List (List Item)) × (List Item × List (List Item))
  dashboard_view locale relative d = (
    dashboard_stats locale (total_of d.search.value) d.api_ready (audit_total_of d.audit.value)
        (is_waiting d.search.status d.audit.status),
    recent_documents relative d.search.status (hits_of d.search.value) d.search.failure,
    activity_feed relative d.audit.status (events_of d.audit.value) d.audit.failure,
  )
