-- ===== src/Setup/View.antt =====
-- frontend/app/setup/page.tsx: what the wizard shows at a step.
use go_analyze.Platform.{Storage}
use go_analyze.Prelude.{
  ℕ, suc, String, Bool, false, not, Option, none, some, List, [], ◌∷◌, ◌++◌, ltb, nat_eq,
  if◌then◌else◌, ◌<+>◌,
}
use go_analyze.Types.{SetupConfigurationResult}
use go_analyze.Ui.{when_text, when_some, when, Item, paragraph, field, button}
use go_analyze.Setup.{summary, WizardState}
use go_analyze.Setup.Steps.{steps, StepId}
use go_analyze.Setup.Finish.{read_setup_completed_flag, FinishState}
use go_analyze.Pages.Analysis.{spaced}

-- A button of the list of steps: its label, its class, and whether it is marked as the current one.
pub record StepButton : Type 0 where
  pub label : String
  pub class_text : String
  pub is_current : Bool

-- The button of `idx` while the wizard is at `step_index`.
abbrev pub step_button : ℕ → ℕ → String → StepButton
step_button step_index idx label =
    let is_active = nat_eq idx step_index in
    record {
      label = label;
      class_text =
          "wizardStepButton"
          <+> ((if is_active then " active" else "")
              <+> (if ltb idx step_index then " done" else ""));
      is_current = is_active;
    }

abbrev pub buttons_from : ℕ → ℕ → List (StepId × String) → List StepButton
buttons_from step_index idx [] = []
buttons_from step_index idx ((id, label) ∷ more) =
    step_button step_index idx label ∷ buttons_from step_index (suc idx) more

unfoldable pub step_buttons : ℕ → List StepButton
unfolding steps
step_buttons step_index = buttons_from step_index 0 steps

-- `isLast` and `isFirst`.
abbrev pub is_last : ℕ → Bool
is_last step_index = nat_eq step_index 8

abbrev pub is_first : ℕ → Bool
is_first step_index = nat_eq step_index 0

-- The buttons below the panel.
unfoldable pub wizard_nav : ℕ → List Item
wizard_nav step_index =
    button "Back" (is_first step_index) ∷ when (not (is_last step_index)) (button "Next" false ∷ [])

abbrev pub summary_items : List (String × String) → List Item
summary_items [] = []
summary_items ((label, value) ∷ rows) = field label value ∷ summary_items rows

-- `warning.replaceAll("_", " ")`.
abbrev pub warning_items : List String → List Item
warning_items [] = []
warning_items (w ∷ ws) = paragraph (spaced w) ∷ warning_items ws

abbrev pub result_items : SetupConfigurationResult → List Item
result_items r =
    paragraph
      (if r.accepted then "Configuration accepted." else "Configuration submitted with warnings.")
    ∷ warning_items r.warnings

-- The effect of the first render: where the set-up was completed before, the page is left for "/".
unfoldable pub setup_redirect : Option Storage → Option String
setup_redirect w = if read_setup_completed_flag w then some "/" else none

-- The last panel.
unfoldable pub review_panel : WizardState → FinishState → List Item
unfolding summary
review_panel w s =
    summary_items (summary w)
    ++ (when_text s.error_text paragraph
        ++ (when_some s.result result_items
            ++ button (if s.submitting then "Submitting..." else "Finish setup") s.submitting ∷ []))
