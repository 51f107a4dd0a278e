-- ===== src/Upload.antt =====
-- frontend/components/documents/DocumentUpload.tsx: the upload form. The state of the component is a
-- record, every `set…` an update of it, and `runUpload` the updates between its awaits; at each await
-- the user may change the form, which is a function on the state.
pub mod Run
pub mod Steps
pub mod View
pub mod Ends
pub mod Stale
pub mod Form
use go_analyze.Prelude.{String, Bool, true, false, Option, none, some, if◌then◌else◌}
use go_analyze.Platform.{File}
use go_analyze.Types.{ClassificationLevel, internal, DocumentRecord}

pub data StepStatus : Type 0 where
  pending active done error : StepStatus

pub record StepState : Type 0 where
  pub ingest : StepStatus
  pub content : StepStatus
  pub process : StepStatus

abbrev pub initial_steps : StepState
initial_steps = record { ingest = pending; content = pending; process = pending }

pub record UploadState : Type 0 where
  pub dragging : Bool
  pub file : Option File
  pub tenant_id : String
  pub case_id : String
  pub classification : ClassificationLevel
  pub description : String
  pub steps : StepState
  pub busy : Bool
  pub error_text : Option String
  pub ingested : Option DocumentRecord
  pub auto_process : Bool

unfoldable pub initial_upload : String → UploadState
initial_upload default_tenant_id = record {
  dragging = false;
  file = none;
  tenant_id = default_tenant_id;
  case_id = "";
  classification = internal;
  description = "";
  steps = initial_steps;
  busy = false;
  error_text = none;
  ingested = none;
  auto_process = true;
}

unfoldable pub reset : UploadState → UploadState
reset s = record s {
  file = none;
  steps = initial_steps;
  error_text = none;
  ingested = none;
  busy = false;
}

unfoldable pub pick_file : Option File → UploadState → UploadState
pick_file none s = s
pick_file (some f) s = record s {
  file = some f;
  error_text = none;
  ingested = none;
  steps = initial_steps;
}

-- The updates of `runUpload`, in order.
unfoldable pub begin : UploadState → UploadState
begin s = record s { busy = true; error_text = none; steps = record (s.steps) { ingest = active } }

unfoldable pub after_ingest : DocumentRecord → UploadState → UploadState
after_ingest r s = record s {
  ingested = some r;
  steps = record (s.steps) { ingest = done; content = active };
}

unfoldable pub after_content : Bool → UploadState → UploadState
after_content auto s = record s {
  steps = record (s.steps) { content = done; process = if auto then active else pending };
}

unfoldable pub after_process : UploadState → UploadState
after_process s = record s { steps = record (s.steps) { process = done } }

unfoldable pub finish : UploadState → UploadState
finish s = record s { busy = false }

-- `status === "active" ? "error" : status`.
abbrev pub failed_step : StepStatus → StepStatus
failed_step active = error
failed_step other = other

unfoldable pub fail : String → UploadState → UploadState
fail message s = record s {
  error_text = some message;
  steps = record {
    ingest = failed_step s.steps.ingest;
    content = failed_step s.steps.content;
    process = failed_step s.steps.process;
  };
  busy = false;
}
