-- ===== src/Tests/SetupLifeRuns.antt =====
-- frontend/app/setup/page.tsx: the theorems on its timers and on its answers at concrete inputs.
use go_analyze.Prelude.{List, ◌≡◌, ◌↔◌, true, false, none, some, [], ◌∷◌}
use go_analyze.Platform.{empty_storage, Room}
use go_analyze.Types.{SetupConfigurationResult}
use go_analyze.Json.{Json, boolean, text, array, object, nil, cons, end, field}
use go_analyze.Setup.{default_state}
use go_analyze.Setup.Response.{is_setup_response, read_setup_response}
use go_analyze.Setup.Response.Shape.{is_setup_response-IsSetupResponse, IsSetupResponse}
use go_analyze.Setup.Finish.{FinishState, SetupReply, responded}
use go_analyze.Setup.Life.{life_step, Life, LifeEvent, opened, pressed, answered}

abbrev any_room : Room
any_room s k v = true

abbrev idle_finish : FinishState
idle_finish = record {
  submitting_ref = false;
  submitting = false;
  error_text = none;
  result = none;
  local = empty_storage;
  redirect_scheduled = false;
  requests = [];
}

abbrev fresh_page : Life
fresh_page = record {
  finish = idle_finish;
  mounted = true;
  redirect_timeout_ref = none;
  timers = [];
  next_timer = 0;
  pushes = 0;
  replaces = 0;
}

-- The answer has a field more than the type names.
abbrev accepting : Json
accepting = object (
    field "accepted" (boolean true) (
      field "validated_components" (array (cons (text "redis") nil))
        (field "warnings" (array nil) (field "version" (text "1") end))))

abbrev accepts_all : SetupReply
accepts_all = responded 200 (some accepting)

abbrev finished : List LifeEvent
finished = opened ∷ pressed default_state ∷ answered accepts_all ∷ []

abbrev submitted : Life
submitted = life_step (λ n. "200") any_room (pressed default_state) fresh_page

abbrev redis_result : SetupConfigurationResult
redis_result = record { accepted = true; validated_components = "redis" ∷ []; warnings = [] }

is_setup_response-IsSetupResponse_example :
    ((is_setup_response accepting ≡ true) × (read_setup_response accepting ≡ redis_result))
    ↔ IsSetupResponse accepting redis_result
is_setup_response-IsSetupResponse_example = is_setup_response-IsSetupResponse accepting redis_result
