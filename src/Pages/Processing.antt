-- ===== src/Pages/Processing.antt =====
-- frontend/app/documents/[document_id]/page.tsx and frontend/app/analysis/[document_id]/page.tsx: a
-- document's processing, with the hook `useProcessDocument`.
pub mod Trace
use go_analyze.Pages.Analysis.{
  risk_score_card, analysis_overview, classification_card, entities_card, workflow_card,
  compliance_card, ScoreOps, JsonOps,
}
use go_analyze.Cache.{get_cached_document, CacheEnv}
use go_analyze.Platform.{Storage}
use go_analyze.Prelude.{
  ℕ, String, false, Option, none, some, List, [], ◌∷◌, ◌++◌, if◌then◌else◌, is_some, length, ◌<+>◌,
}
use go_analyze.Types.{StageResult, DocumentProcessingResult}
use go_analyze.Hooks.{is_loading, AsyncState}
use go_analyze.Ui.{message_or, when_some, when, Item, button, banner, Thrown}
use go_analyze.Pages.Analysis.Pipeline.{pipeline, completed, PipelineRow}

-- `error && <InlineBanner kind="error">…`. The hook stores what was thrown with the cast
-- `err as Error`; a thrown value that is no `Error` has no message.
abbrev pub error_banner : Option Thrown → List Item
error_banner failure = when_some failure (λ e. banner "error" (message_or "" e) ∷ [])

module _ {Json Score : Type 0} where
  -- The card "Processing" of the document's page, for the state of the hook: `value` is its `result`.
  unfoldable pub processing_card :
      (ℕ → String) → AsyncState (DocumentProcessingResult Json Score) Thrown → List Item
  processing_card print s =
      error_banner s.failure
      ++ (when_some s.value (λ r. when r.completed (
            banner "success"
              ("Processing completed — " <+> (print (length r.stages) <+> " stage(s) run."))
            ∷ []))
          ++ button (if is_loading s.status then "Processing…" else "Run Processing")
              (is_loading s.status)
            ∷ when_some s.value (λ r. button "View results" false ∷ []))

  -- The button of the page "Document Analysis".
  abbrev pub run_button : AsyncState (DocumentProcessingResult Json Score) Thrown → Item
  run_button s =
      button
        (if is_loading s.status
          then "Processing…"
          else if is_some s.value
          then "Re-run Processing"
          else "Run Processing")
        (is_loading s.status)

  -- `result?.stages ?? null`, and so on.
  abbrev pub stages_of :
      Option (DocumentProcessingResult Json Score) → Option (List (StageResult Json))
  stages_of none = none
  stages_of (some r) = some r.stages

  abbrev pub label_of : Option (DocumentProcessingResult Json Score) → Option String
  label_of none = none
  label_of (some r) = r.classification_label

  abbrev pub entities_of : Option (DocumentProcessingResult Json Score) → Option (List String)
  entities_of none = none
  entities_of (some r) = some r.extracted_entities

  abbrev pub score_of : Option (DocumentProcessingResult Json Score) → Option Score
  score_of none = none
  score_of (some r) = r.risk_score

  abbrev pub queue_of : Option (DocumentProcessingResult Json Score) → Option String
  queue_of none = none
  queue_of (some r) = r.workflow_queue

  -- That page below its heading, in its order, and its pipeline.
  unfoldable pub analysis_view :
      ScoreOps Score
      → JsonOps Json
      → (ℕ → String)
      → AsyncState (DocumentProcessingResult Json Score) Thrown
      → List Item × List PipelineRow
  analysis_view ops json print s = (
    run_button s ∷ error_banner s.failure
        ++ (analysis_overview ops print s.value
            ++ (classification_card (label_of s.value)
                ++ (entities_card (entities_of s.value)
                    ++ (compliance_card json (stages_of s.value)
                        ++ (risk_score_card ops (score_of s.value)
                            ++ workflow_card (queue_of s.value)))))),
    pipeline (stages_of s.value),
  )

-- `doc?.filename ?? "Document"` of both pages: the effect of the analysis page keeps the filename
-- only.
unfoldable pub known_filename : CacheEnv → String → Option Storage → Option String
known_filename env document_id w = elim (get_cached_document env document_id w) [
  | none ↦ none
  | some d ↦ d.filename
]
