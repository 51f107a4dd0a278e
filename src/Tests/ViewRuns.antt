-- ===== src/Tests/ViewRuns.antt =====
-- frontend/app and frontend/components: the theorems on the pages' views at concrete inputs.
use go_analyze.Prelude.{
  ℕ, suc, String, ◌≡◌, refl, true, false, none, some, List, [], ◌∷◌, map, if◌then◌else◌, is_some,
  All,
}
use go_analyze.Types.{StageResult, DocumentProcessingResult, SearchResponse}
use go_analyze.Ui.{button, other_thrown}
use go_analyze.Hooks.{is_loading, resolved, thrown}
use go_analyze.Pages.Analysis.Pipeline.{pipeline, IsShown, pipeline-rows, PipelineRow}
use go_analyze.Pages.Processing.{run_button}
use go_analyze.Pages.Processing.Trace.{
  first_session, process_step, process_run, process_run-IsSingle, process_run-usable, ProcessEvent,
  pressed, answered, IsSingle,
}
use go_analyze.Pages.Documents.{
  open_documents, documents_run, edit_q, DocumentsEvent, filtered, submitted, clicked_next,
  clicked_retry, search_ended,
}
use go_analyze.Pages.Documents.Trace.{documents_run-IsAsking, IsAsking}
use go_analyze.Pages.Download.{
  initial_download, download_run, download_run-IsTidy, downloaded, not_downloaded, DownloadEvent,
  clicked, ended, IsTidy,
}

abbrev print : ℕ → String
print n = "1"

abbrev ocr : StageResult String
ocr = record { stage = "ocr"; status = "completed"; output = []; duration_ms = 12 }

abbrev scan : StageResult String
scan = record { stage = "virus_scan"; status = "failed"; output = []; duration_ms = 3 }

abbrev processed : DocumentProcessingResult String ℕ
processed = record {
  document_id = "a";
  stages = ocr ∷ scan ∷ [];
  classification_label = some "permit";
  extracted_entities = [];
  risk_score = none;
  workflow_queue = none;
  completed = true;
}

pipeline-rows_example :
    (map PipelineRow.name (pipeline (some (ocr ∷ scan ∷ [])))
      ≡ map StageResult.stage (ocr ∷ scan ∷ []))
    × All (IsShown (ocr ∷ scan ∷ [])) (pipeline (some (ocr ∷ scan ∷ [])))
pipeline-rows_example = pipeline-rows ocr (scan ∷ [])

abbrev processing : List (ProcessEvent String ℕ)
processing = pressed ∷ pressed ∷ answered (thrown other_thrown) ∷ pressed ∷ []

process_run-IsSingle_example :
    IsSingle String ℕ (process_run String ℕ processing (first_session String ℕ))
process_run-IsSingle_example = process_run-IsSingle processing

process_run-usable_example :
    let s =
      process_step String ℕ
        (answered (resolved processed))
        (process_run String ℕ processing (first_session String ℕ)) in
    (run_button s.hook
      ≡ button (if is_some s.hook.value then "Re-run Processing" else "Run Processing") false)
    × ((process_step String ℕ pressed s).sent ≡ suc s.sent)
    × (is_loading (process_step String ℕ pressed s).hook.status ≡ true)
process_run-usable_example = process_run-usable processing (resolved processed)

abbrev downloading : List DownloadEvent
downloading =
    clicked ∷ clicked ∷ ended downloaded ∷ clicked ∷ ended (not_downloaded other_thrown) ∷ []

initial_download-IsTidy : IsTidy "a" none (initial_download, [])
initial_download-IsTidy = record { all_revoked = refl; no_error = refl }

download_run-IsTidy_example :
    IsTidy "a" none (download_run "a" none downloading (initial_download, []))
download_run-IsTidy_example =
    download_run-IsTidy "a" none downloading (initial_download, []) initial_download-IsTidy

abbrev found : SearchResponse
found = record {
  query = "";
  total = 0;
  page = 1;
  page_size = 20;
  backend = "database";
  results = [];
}

abbrev browsing : List (DocumentsEvent print print)
browsing =
    filtered (edit_q "permit")
    ∷ submitted
    ∷ search_ended (resolved found)
    ∷ clicked_next
    ∷ search_ended (thrown other_thrown)
    ∷ clicked_retry
    ∷ []

documents_run-IsAsking_example : IsAsking (documents_run print print browsing open_documents)
documents_run-IsAsking_example = documents_run-IsAsking print print browsing
