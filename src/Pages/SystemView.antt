-- ===== src/Pages/SystemView.antt =====
-- frontend/app/system/page.tsx: the cards of the system page.
use go_analyze.Prelude.{String, true, Option, none, some, List, [], ◌∷◌, ◌++◌, coalesce, ◌<+>◌}
use go_analyze.Ui.{
  show_error, when_text, when_some, Item, paragraph, loading_block, Thrown, other_thrown,
}
use go_analyze.Pages.System.{loading, success, error, Slot}
use go_analyze.Pages.Analysis.{output_fields, JsonOps}

-- The line "Last checked"; `format` is `formatDateTime`.
abbrev pub last_checked : (String → String) → Option String → List Item
last_checked format checked_at =
    when_text checked_at (λ t. paragraph ("Last checked " <+> format t))

module _ {Json : Type 0} (ops : JsonOps Json) (format : String → String) where
  abbrev reachable : List (String × Json) → Option String → List Item
  reachable entries checked_at =
      paragraph "Reachable" ∷ (output_fields ops entries ++ last_checked format checked_at)

  -- `StatusCard`, for the entries of the answer.
  unfoldable pub status_card : Slot (List (String × Json)) Thrown → List Item
  status_card s = elim s.status [
    | loading ↦ loading_block "Checking…" ∷ []
    | error ↦ show_error none true (coalesce s.failure other_thrown) ∷ []
    | success ↦ when_some s.value (λ entries. reachable entries s.checked_at)
  ]

  -- `MetricsCard`. `as_text` is the text of an answer that is one, and `pretty` is
  -- `JSON.stringify(data, null, 2)`.
  unfoldable pub metrics_card :
      (Json → Option String) → (Option Json → String) → Slot Json Thrown → List Item
  metrics_card as_text pretty s =
      let text : String = elim s.value [
        | none ↦ pretty none
        | some j ↦ coalesce (as_text j) (pretty (some j))
      ] in
      elim s.status [
        | loading ↦ loading_block "Fetching metrics…" ∷ []
        | error ↦ show_error none true (coalesce s.failure other_thrown) ∷ []
        | success ↦ paragraph text ∷ last_checked format s.checked_at
      ]
