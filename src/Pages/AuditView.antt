-- ===== src/Pages/AuditView.antt =====
-- frontend/components/audit/AuditTable.tsx and frontend/app/audit/page.tsx: what is shown of the
-- events.
use go_analyze.Prelude.{
  ℕ, String, true, Option, none, some, List, [], ◌∷◌, ◌++◌, coalesce, ◌<+>◌, take_text,
}
use go_analyze.Types.{AuditEvent, AuditEventListResponse}
use go_analyze.Hooks.{idle, loading, success, error, AsyncState}
use go_analyze.Ui.{
  show_error, when_text, when, Item, paragraph, field, badge, empty_block, skeleton, Thrown,
  other_thrown,
}
use go_analyze.Pages.AuditRows.{is_open}
use go_analyze.Pages.Paging.{pagination, PageControls}

module _ {Json : Type 0} (format : String → String)
    (stringify : List (String × Json) → String) where
  -- The row of an event.
  abbrev pub event_row : AuditEvent Json → List Item
  event_row e =
      paragraph (format e.timestamp)
      ∷ paragraph e.actor
      ∷ badge "badge-info" e.action
      ∷ paragraph e.resource_type
      ∷ paragraph e.resource_id
      ∷ paragraph e.purpose
      ∷ paragraph (take_text 8 e.trace_id <+> "…")
      ∷ []

  -- The details of an event, shown where there are any.
  abbrev pub details_block : List (String × Json) → List Item
  details_block [] = []
  details_block (d ∷ ds) = field "Details" (stringify (d ∷ ds)) ∷ []

  abbrev pub hash_field : String → Option String → List Item
  hash_field label value = when_text value (field label)

  -- The row below an open event.
  unfoldable pub event_details : AuditEvent Json → List Item
  event_details e =
      field "Event ID" e.id
      ∷ field "Tenant" e.tenant_id
      ∷ field "Trace ID" e.trace_id
      ∷ (hash_field "Previous hash" e.previous_hash
          ++ (hash_field "Event hash" e.event_hash ++ details_block e.details))

  -- `AuditTable`: each event's row, and its details if it is open.
  unfoldable pub audit_table : Option String → List (AuditEvent Json) → List (List Item × List Item)
  unfolding event_details
  audit_table expanded [] = []
  audit_table expanded (e ∷ es) =
      (event_row e, when (is_open e.id expanded) (event_details e)) ∷ audit_table expanded es

  -- The page below its heading: notices, the rows, and the buttons of `Pagination`.
  pub record AuditView : Type 0 where
    pub notices : List Item
    pub rows : List (List Item × List Item)
    pub controls : Option PageControls

  abbrev plain : List Item → AuditView
  plain items = record { notices = items; rows = []; controls = none }

  module _ (number locale : ℕ → String) (expanded : Option String) where
    abbrev events_view : AuditEventListResponse Json → List (AuditEvent Json) → AuditView
    events_view r [] = plain (
        empty_block "No audit events"
          "Events will appear here as actions are taken across the platform."
        ∷ [])
    events_view r (e ∷ es) = record {
      notices = [];
      rows = audit_table expanded (e ∷ es);
      controls = pagination number locale r.page r.total_pages (some r.total);
    }

    unfoldable pub audit_view : AsyncState (AuditEventListResponse Json) Thrown → AuditView
    audit_view s = elim s.status [
      | idle ↦ plain []
      | loading ↦ plain (skeleton 10 ∷ [])
      | error ↦ plain (show_error none true (coalesce s.failure other_thrown) ∷ [])
      | success ↦ elim s.value [ none ↦ plain [] | some r ↦ events_view r r.items ]
    ]
