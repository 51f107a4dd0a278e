-- ===== src/Tests/UploadRuns.antt =====
-- frontend/components/documents/DocumentUpload.tsx: the theorems at concrete inputs.
use go_analyze.Prelude.{String, ◌≡◌, refl, true, false, none, some, [], ◌∷◌}
use go_analyze.Platform.{File}
use go_analyze.Types.{internal, DocumentRecord}
use go_analyze.Upload.{initial_steps, UploadState}
use go_analyze.Upload.Run.{run_upload, got, api_failed, Surroundings}
use go_analyze.Upload.Steps.{run_upload_idle, run_upload-Trail, Trail}
use go_analyze.Upload.Ends.{run_upload-Ended, IsQuiet, Ended}

abbrev report : File
report = record { name = "report.pdf"; mime_type = "application/pdf"; size = 2; bytes = 1 ∷ 2 ∷ [] }

abbrev stored : DocumentRecord
stored = record {
  tenant_id = "default";
  case_id = none;
  filename = "report.pdf";
  content_type = "application/pdf";
  classification = internal;
  sha256 = "00";
  object_uri = "pending://default/00/report.pdf";
  metadata = [];
  id = "d1";
  version = 1;
  lineage_id = "l1";
  created_at = "2026-01-01";
}

abbrev quiet : UploadState → UploadState
quiet s = s

abbrev accepting : Surroundings
accepting = record {
  hash = λ f. got "00";
  ingest_reply = λ p. got stored;
  content_reply = λ id f. got tt;
  process_reply = λ id. got tt;
  during_hash = quiet;
  during_ingest = quiet;
  during_content = quiet;
  during_process = quiet;
}

abbrev refusing : Surroundings
refusing = record accepting { ingest_reply = λ p. api_failed "No permission." }

abbrev encode : String → String
encode s = s

abbrev chosen : UploadState
chosen = record {
  dragging = false;
  file = some report;
  tenant_id = "default";
  case_id = "";
  classification = internal;
  description = "";
  steps = initial_steps;
  busy = false;
  error_text = none;
  ingested = none;
  auto_process = true;
}

run_upload-Trail_example :
    Trail encode "default" refusing chosen report
      (run_upload encode "default" refusing chosen).calls
run_upload-Trail_example = run_upload-Trail encode "default" refusing chosen report refl

run_upload_idle_example : (run_upload encode "default" refusing chosen).form.busy ≡ false
run_upload_idle_example = run_upload_idle encode "default" refusing chosen report refl

refusing-IsQuiet : IsQuiet refusing
refusing-IsQuiet = record {
  hash_quiet = λ s. refl;
  ingest_quiet = λ s. refl;
  content_quiet = λ s. refl;
  process_quiet = λ s. refl;
}

run_upload-Ended_example : Ended true (run_upload encode "default" refusing chosen).form
run_upload-Ended_example =
    run_upload-Ended encode "default" refusing refusing-IsQuiet chosen report refl refl refl
