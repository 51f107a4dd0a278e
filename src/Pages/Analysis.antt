-- ===== src/Pages/Analysis.antt =====
-- frontend/components/analysis and frontend/app/analysis/[document_id]/page.tsx: the results of a
-- document's processing.
pub mod Pipeline
use go_analyze.Prelude.{
  ℕ, code, String, Bool, Option, none, some, List, [], ◌∷◌, map, nat_eq, ◌==◌, if◌then◌else◌,
  coalesce, is_truthy, length, ◌<+>◌, map_text, join, split_text, first_text, rest_text,
}
use go_analyze.Types.{StageResult, DocumentProcessingResult}
use go_analyze.Ui.{Item, paragraph, field, badge, empty_block}

-- JavaScript's numbers where they hold a score between 0 and 1: whether one is NaN, whether it is
-- below a number of hundredths, and the text of its percentage, `(score * 100).toFixed(0)`.
pub record ScoreOps (Score : Type 0) : Type 0 where
  pub is_nan : Score → Bool
  pub below : Score → ℕ → Bool
  pub percent : Score → String

pub data RiskBand : Type 0 where
  low medium high unscored : RiskBand

abbrev pub band_text : RiskBand → String
band_text low = "low"
band_text medium = "medium"
band_text high = "high"
band_text unscored = "unknown"

-- `JSON.stringify(value)` for an object, and `String(value)` otherwise.
pub record JsonOps (Json : Type 0) : Type 0 where
  pub is_object : Json → Bool
  pub stringify : Json → String
  pub text_of : Json → String

abbrev pub show_value : {Json : Type 0} → JsonOps Json → Json → String
show_value ops v = if ops.is_object v then ops.stringify v else ops.text_of v

-- `.replace(/_/g, " ")`.
abbrev pub spaced : String → String
spaced s = map_text (λ c. if nat_eq (code c) b'_' then " " else c) s

-- `stageLabel`; `upper` is `toUpperCase`.
unfoldable pub stage_label : (String → String) → String → String
stage_label upper stage =
    join " " (map (λ w. upper (first_text w) <+> rest_text w) (split_text b'_' stage))

module _ {Score : Type 0} (ops : ScoreOps Score) where
  -- `riskBand`.
  unfoldable pub risk_band : Option Score → RiskBand
  risk_band none = unscored
  risk_band (some s) =
      if ops.is_nan s
      then unscored
      else if ops.below s 34
      then low
      else if ops.below s 67
      then medium
      else high

  -- `RiskBadge`.
  unfoldable pub risk_badge : Option Score → Item
  unfolding risk_band
  risk_badge score =
      let tail : String = elim score [ none ↦ "" | some s ↦ " · " <+> (ops.percent s <+> "%") ] in
      elim (risk_band score) [
        | low ↦ badge "badge-success" ("Low risk" <+> tail)
        | medium ↦ badge "badge-warning" ("Medium risk" <+> tail)
        | high ↦ badge "badge-danger" ("High risk" <+> tail)
        | unscored ↦ badge "badge-neutral" ("Not scored" <+> tail)
      ]

  -- `RiskScore`.
  unfoldable pub risk_score_card : Option Score → List Item
  unfolding risk_band
  risk_score_card none =
      empty_block "Not scored yet" "Run processing on this document to compute a risk score." ∷ []
  risk_score_card (some s) =
      paragraph (ops.percent s <+> "%")
      ∷ badge ("risk-" <+> band_text (risk_band (some s))) ""
      ∷ paragraph (band_text (risk_band (some s)) <+> " risk")
      ∷ []

  -- `AnalysisOverview`.
  unfoldable pub analysis_overview :
      {Json : Type 0} → (ℕ → String) → Option (DocumentProcessingResult Json Score) → List Item
  analysis_overview print none =
      empty_block "No analysis run yet"
        "Trigger processing to run OCR, classification, entity extraction, compliance analysis, and risk scoring on this document."
      ∷ []
  analysis_overview print (some r) =
      field "Status" (if r.completed then "Completed" else "In progress")
      ∷ field "Stages run" (print (length r.stages))
      ∷ field "Entities found" (print (length r.extracted_entities))
      ∷ field "Risk" (elim r.risk_score [ none ↦ "—" | some s ↦ ops.percent s <+> "%" ])
      ∷ []

-- `ClassificationResult`.
unfoldable pub classification_card : Option String → List Item
classification_card label =
    if is_truthy label
    then paragraph (coalesce label "") ∷ []
    else empty_block "Not classified yet" "Run processing to classify this document." ∷ []

-- `EntitiesPanel`.
unfoldable pub entities_card : Option (List String) → List Item
entities_card none =
    empty_block "No entities extracted" "Entities appear here once processing completes." ∷ []
entities_card (some []) =
    empty_block "No entities extracted" "Entities appear here once processing completes." ∷ []
entities_card (some (e ∷ es)) = map (badge "badge-info") (e ∷ es)

-- `WorkflowPanel`.
unfoldable pub workflow_card : Option String → List Item
workflow_card queue =
    if is_truthy queue
    then paragraph "Routed to queue " ∷ badge "badge-accent" (coalesce queue "") ∷ []
    else empty_block "Not routed yet" "Workflow routing appears here once processing completes."
      ∷ []

module _ {Json : Type 0} (ops : JsonOps Json) where
  -- `stages?.find(…)`.
  abbrev pub find_stage : String → List (StageResult Json) → Option (StageResult Json)
  find_stage name [] = none
  find_stage name (s ∷ ss) =
      let rest = find_stage name ss in if s.stage == name then some s else rest

  abbrev pub output_fields : List (String × Json) → List Item
  output_fields [] = []
  output_fields ((k, v) ∷ kvs) = field (spaced k) (show_value ops v) ∷ output_fields kvs

  abbrev pub stage_findings : List (String × Json) → List Item
  stage_findings [] =
      empty_block "No findings reported" "The compliance stage ran but returned no findings." ∷ []
  stage_findings (kv ∷ kvs) = output_fields (kv ∷ kvs)

  -- `CompliancePanel`.
  unfoldable pub compliance_card : Option (List (StageResult Json)) → List Item
  compliance_card stages = elim (find_stage "compliance_analysis" (coalesce stages [])) [
    | none ↦
        empty_block "Not analyzed yet"
          "Run processing to see compliance findings for this document."
        ∷ []
    | some s ↦ stage_findings s.output
  ]
