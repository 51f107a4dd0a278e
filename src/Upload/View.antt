-- ===== src/Upload/View.antt =====
-- frontend/components/documents/DocumentUpload.tsx: what the form shows for a state.
use go_analyze.Prelude.{
  String, Bool, true, false, not, ◌||◌, Option, none, some, List, [], ◌∷◌, if◌then◌else◌, coalesce,
  is_some, is_empty, or_null, ◌<+>◌,
}
use go_analyze.Upload.{StepStatus, pending, active, done, error, UploadState}

pub data StepIcon : Type 0 where
  check_circle cross_circle spinner no_icon : StepIcon

-- `StepRow`: the icon and the colour of a status.
abbrev pub step_icon : StepStatus → StepIcon
step_icon done = check_circle
step_icon error = cross_circle
step_icon active = spinner
step_icon pending = no_icon

abbrev pub step_color : StepStatus → String
step_color done = "var(--success)"
step_color error = "var(--danger)"
step_color active = "var(--accent)"
step_color pending = "var(--muted-2)"

abbrev pub is_pending : StepStatus → Bool
is_pending pending = true
is_pending _ = false

abbrev pub is_done : StepStatus → Bool
is_done done = true
is_done _ = false

-- The parts of the form that are there only in some states, in the order of the page.
pub record UploadView : Type 0 where
  pub file_row : Option String  -- the name of the chosen file, with the button "Remove"
  pub remove_disabled : Bool
  pub error_banner : Option String
  pub step_rows : List StepStatus  -- empty where the panel is not shown
  pub success_banner : Option (String × String)  -- the file name and the id of the record
  pub upload_disabled : Bool
  pub upload_label : String
  pub view_document : Option String  -- the address of the button "View document"

unfoldable pub view_upload : UploadState → UploadView
view_upload s =
    let rows =
      s.steps.ingest ∷ s.steps.content ∷ (if s.auto_process then s.steps.process ∷ [] else []) in
    record {
      file_row = elim s.file [ none ↦ none | some f ↦ some f.name ];
      remove_disabled = s.busy;
      error_banner = or_null (coalesce s.error_text "");
      step_rows = if not (is_pending s.steps.ingest) || s.busy then rows else [];
      success_banner =
          if is_done s.steps.content
          then elim s.ingested [ none ↦ none | some r ↦ some (r.filename, r.id) ]
          else none;
      upload_disabled = not (is_some s.file) || (s.busy || is_empty s.tenant_id);
      upload_label = if s.busy then "Uploading…" else "Upload Document";
      view_document = elim s.ingested [ none ↦ none | some r ↦ some ("/documents/" <+> r.id) ];
    }
