-- ===== src/Setup/Finish.antt =====
-- frontend/app/setup/page.tsx: `handleFinish`, and the flag in localStorage.
pub mod Trace
pub mod Flag
use go_analyze.Prelude.{
  ℕ, code, String, Bool, true, false, not, ◌&&◌, Option, none, some, List, [], ◌∷◌, ◌++◌, nat_eq,
  ◌==◌, if◌then◌else◌, coalesce, length, ◌<+>◌, map_text, join,
}
use go_analyze.Platform.{Storage, get_item, Room, try_set_item, is_ok_status}
use go_analyze.Types.{SetupConfiguration, SetupConfigurationResult}
use go_analyze.Json.{Json, number}
use go_analyze.Setup.{payload, WizardState}
use go_analyze.Setup.Response.{is_setup_response, read_setup_response}

abbrev pub setup_completed_key : String
setup_completed_key = "goanalyze_setup_completed"

-- The reads of localStorage. `none` is the server, or a browser whose storage throws.
unfoldable pub read_setup_completed_flag : Option Storage → Bool
read_setup_completed_flag none = false
read_setup_completed_flag (some s) = elim (get_item setup_completed_key s) [
  | none ↦ false
  | some v ↦ v == "true"
]

-- A write that the browser refuses is passed over.
unfoldable pub write_setup_completed_flag : Room → Storage → Storage
write_setup_completed_flag room s = coalesce (try_set_item room setup_completed_key "true" s) s

unfoldable pub get_api_base : Option String → String
get_api_base env = coalesce env "http://localhost:8080"

-- The state that `handleFinish` works on: the component's, the guard `submittingRef`, localStorage,
-- whether the redirect is scheduled, and the requests sent.
pub record FinishState : Type 0 where
  pub submitting_ref : Bool
  pub submitting : Bool
  pub error_text : Option String
  pub result : Option SetupConfigurationResult
  pub local : Storage
  pub redirect_scheduled : Bool
  pub requests : List SetupConfiguration

-- What `fetch` gives: an abort by the timer, another exception, or a status with the body, `none`
-- where `response.json()` throws.
pub data SetupReply : Type 0 where
  timed_out : SetupReply
  unreachable : SetupReply
  responded : ℕ → Option Json → SetupReply

-- `rawBody.warnings.join(", ").replaceAll("_", " ")`.
unfoldable pub warning_text : List String → String
warning_text ws = map_text (λ c. if nat_eq (code c) b'_' then " " else c) (join ", " ws)

module _ (number : ℕ → String) (room : Room) where
  -- The click: nothing happens while a submission is under way.
  unfoldable pub start_finish : WizardState → FinishState → FinishState
  start_finish w s = if s.submitting_ref then s else record s {
    submitting_ref = true;
    submitting = true;
    error_text = none;
    result = none;
    requests = s.requests ++ payload w ∷ [];
  }

  abbrev pub fail_finish : String → FinishState → FinishState
  fail_finish message s = record s { error_text = some message }

  -- The body of a response that could be parsed.
  unfoldable pub settle_body : ℕ → Json → FinishState → FinishState
  settle_body status raw s =
      let r = read_setup_response raw in
      let details =
        if is_setup_response raw && not (nat_eq (length r.warnings) 0)
        then " Details: " <+> warning_text r.warnings
        else "" in
      if not (is_ok_status status)
      then fail_finish ("Setup failed (HTTP " <+> (number status <+> (")." <+> details))) s
      else if not (is_setup_response raw)
      then fail_finish "Setup API returned an unexpected response format." s
      else if r.accepted
      then record s {
        result = some r;
        local = write_setup_completed_flag room s.local;
        redirect_scheduled = true;
      }
      else record s { result = some r }

  unfoldable pub settle_reply : SetupReply → FinishState → FinishState
  settle_reply timed_out s =
      fail_finish "Setup request timed out. Verify backend connectivity and try again." s
  settle_reply unreachable s =
      fail_finish "Unable to reach the setup API. Check your network connection and try again." s
  settle_reply (responded status none) s =
      fail_finish ("Setup API returned an invalid response (status " <+> (number status <+> ").")) s
  settle_reply (responded status (some raw)) s = settle_body status raw s

  -- With the `finally` block.
  unfoldable pub settle_finish : SetupReply → FinishState → FinishState
  settle_finish reply s = record (settle_reply reply s) {
    submitting_ref = false;
    submitting = false;
  }
