-- ===== src/Pages/Cases.antt =====
-- frontend/app/cases/page.tsx and frontend/app/cases/[case_id]/page.tsx: the pages of a case.
pub mod Trace
use go_analyze.Prelude.{
  String, Option, none, some, List, [], ◌∷◌, ◌++◌, if◌then◌else◌, is_empty, ◌<+>◌, first_text,
  rest_text,
}
use go_analyze.Api.Endpoints.{assign, Endpoint}
use go_analyze.Hooks.{
  is_loading, AsyncStatus, idle, loading, success, error, Ended, resolved, thrown,
}
use go_analyze.Ui.{api_message_or, when_text, Item, button, banner, Thrown}

-- `SKILLS`, the choices of the list.
pub data Skill : Type 0 where
  technical legal environmental financial general : Skill

abbrev pub skill_text : Skill → String
skill_text technical = "technical"
skill_text legal = "legal"
skill_text environmental = "environmental"
skill_text financial = "financial"
skill_text general = "general"

unfoldable pub skills : List Skill
skills = technical ∷ legal ∷ environmental ∷ financial ∷ general ∷ []

-- The text of an option, `s.charAt(0).toUpperCase() + s.slice(1)`.
unfoldable pub skill_label : (String → String) → Skill → String
skill_label upper s = upper (first_text (skill_text s)) <+> rest_text (skill_text s)

-- The button "Open" of the list of cases: its address, `none` where it is disabled.
unfoldable pub open_case : (String → String) → String → Option String
open_case encode case_id = if is_empty case_id then none else some ("/cases/" <+> encode case_id)

-- The state of the page of a case, and the requests that it has sent.
pub record CaseState (R : Type 0) : Type 0 where
  pub skill : Skill
  pub status : AsyncStatus
  pub error_text : Option String
  pub result : Option R
  pub requests : List Endpoint

-- A choice of a skill, a click on the button, which does nothing while it is disabled, and the end of
-- a request.
pub data CaseEvent (R : Type 0) : Type 0 where
  chosen : Skill → CaseEvent R
  clicked : CaseEvent R
  assigned : Ended R Thrown → CaseEvent R

module _ {R : Type 0} where
  unfoldable pub initial_case : CaseState R
  initial_case = record {
    skill = technical;
    status = idle;
    error_text = none;
    result = none;
    requests = [];
  }

  -- `assign` up to its await.
  unfoldable pub start_assign : String → CaseState R → CaseState R
  start_assign case_id s = record s {
    status = loading;
    error_text = none;
    requests = s.requests ++ assign case_id (some (skill_text s.skill)) ∷ [];
  }

  -- The rest of it.
  unfoldable pub settle_assign : Ended R Thrown → CaseState R → CaseState R
  settle_assign (resolved r) s = record s { result = some r; status = success }
  settle_assign (thrown e) s = record s {
    error_text = some (api_message_or "Case assignment failed." e);
    status = error;
  }

  -- The banners and the button of the page; `stringify` is `JSON.stringify`.
  abbrev pub assigned_banner : (R → String) → AsyncStatus → Option R → List Item
  assigned_banner stringify success (some r) =
      banner "success" ("Case assigned. Response: " <+> stringify r) ∷ []
  assigned_banner stringify _ _ = []

  unfoldable pub case_view : (R → String) → CaseState R → List Item
  case_view stringify s =
      when_text s.error_text (banner "error")
      ++ (assigned_banner stringify s.status s.result
          ++ button (if is_loading s.status then "Assigning…" else "Assign Case")
              (is_loading s.status)
            ∷ [])

  unfoldable pub case_step : String → CaseEvent R → CaseState R → CaseState R
  case_step case_id (chosen k) s = record s { skill = k }
  case_step case_id clicked s = if is_loading s.status then s else start_assign case_id s
  case_step case_id (assigned r) s = if is_loading s.status then settle_assign r s else s

  abbrev pub case_run : String → List (CaseEvent R) → CaseState R → CaseState R
  case_run case_id [] s = s
  case_run case_id (e ∷ es) s = case_run case_id es (case_step case_id e s)
