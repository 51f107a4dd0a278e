-- ===== src/Tests/SetupRuns.antt =====
-- frontend/app/setup/page.tsx: the theorems at concrete inputs.
use go_analyze.Setup.Panels.{change, f_azure_ad_client_id}
use go_analyze.Setup.Panels.Controlled.{form, replaced, offered, distinct, form-change, shown_text}
use go_analyze.Setup.View.{step_buttons, wizard_nav}
use go_analyze.Ui.{button}
use go_analyze.Setup.Steps.{steps, go_to, next}
use go_analyze.Setup.Steps.Moves.{moves, current_labels, label_at, moves_shown}
use go_analyze.Prelude.{
  not, if◌then◌else◌, ◌<◌, ◌≡◌, refl, inl, true, false, ◌||◌, none, some, List, [], ◌∷◌, arith,
  nat_eq, is_some, length,
}
use go_analyze.Platform.{empty_storage, Room}
use go_analyze.Types.{SetupConfigurationResult}
use go_analyze.Setup.{default_state, update}
use go_analyze.Setup.Response.{response_json}
use go_analyze.Setup.Finish.{read_setup_completed_flag, settle_finish, FinishState, responded}
use go_analyze.Setup.Finish.Flag.{is_accepted, is_readable, answer_of, settle_finish-flag}
use go_analyze.Setup.Finish.Trace.{
  finish_run, finish_run-IsConsistent, FinishEvent, clicked, settled, IsConsistent,
}

moves_shown_example :
    let at = moves (next ∷ go_to 8 ∷ next ∷ []) 0 in
    (at < length steps)
    × (current_labels (step_buttons at) ≡ label_at at steps ∷ [])
    × (at ≡ 8 → wizard_nav at ≡ button "Back" false ∷ [])
    × (at < 8 → wizard_nav at ≡ button "Back" (nat_eq at 0) ∷ button "Next" false ∷ [])
unfolding steps
moves_shown_example =
    moves_shown (next ∷ go_to 8 ∷ next ∷ []) 0 (tt, (omega arith, (tt, tt))) (omega arith)

abbrev accepted_result : SetupConfigurationResult
accepted_result = record {
  accepted = true;
  validated_components = "redis" ∷ [];
  warnings = "no_smtp" ∷ [];
}

abbrev idle_finish : FinishState
idle_finish = record {
  submitting_ref = false;
  submitting = false;
  error_text = none;
  result = none;
  local = empty_storage;
  redirect_scheduled = false;
  requests = [];
}

abbrev any_room : Room
any_room s k v = true

abbrev clicks : List FinishEvent
clicks =
    clicked default_state
    ∷ clicked default_state
    ∷ settled (responded 200 (some (response_json accepted_result)))
    ∷ []

idle_finish-IsConsistent : IsConsistent idle_finish
idle_finish-IsConsistent = record { button_follows = refl; cleared = λ e. cc; exclusive = inl refl }

finish_run-IsConsistent_example : IsConsistent (finish_run (λ n. "200") any_room clicks idle_finish)
finish_run-IsConsistent_example =
    finish_run-IsConsistent (λ n. "200") any_room clicks idle_finish idle_finish-IsConsistent

settle_finish-flag_example :
    let t =
      settle_finish
        (λ n. "200")
        any_room
        (responded 200 (some (response_json accepted_result)))
        idle_finish in
    let counts = is_accepted (responded 200 (some (response_json accepted_result))) in
    (t.redirect_scheduled ≡ (counts || false))
    × (read_setup_completed_flag (some t.local)
        ≡ (counts || read_setup_completed_flag (some empty_storage)))
    × (t.result ≡ (
        if is_readable (responded 200 (some (response_json accepted_result)))
        then answer_of (responded 200 (some (response_json accepted_result)))
        else none))
    × (is_some t.error_text
        ≡ (not (is_readable (responded 200 (some (response_json accepted_result)))) || false))
settle_finish-flag_example =
    settle_finish-flag (λ n. "200") any_room (responded 200 (some (response_json accepted_result)))
      idle_finish refl

form-change_example :
    (distinct (offered steps default_state) ≡ true)
    × (form (update (change f_azure_ad_client_id "app") default_state)
        ≡ replaced f_azure_ad_client_id (shown_text "app") (form default_state))
form-change_example = form-change f_azure_ad_client_id "app" default_state
