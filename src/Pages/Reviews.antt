-- ===== src/Pages/Reviews.antt =====
-- frontend/app/environmental-reviews/page.tsx: the form of a review request.
pub mod Orderly
use go_analyze.Prelude.{
  ℕ, String, Bool, true, false, ◌||◌, Option, none, some, List, [], ◌∷◌, ◌++◌, nat_eq,
  if◌then◌else◌, is_empty, length,
}
use go_analyze.Types.{EnvironmentalReviewRequest}
use go_analyze.Hooks.{is_loading, AsyncStatus, idle, loading, success, error}
use go_analyze.Pages.Citations.{remove_at}

pub record ReviewFields : Type 0 where
  pub tenant_id : String
  pub case_id : String
  pub project_type : String
  pub location : String
  pub applicant : String

-- The state of the page, and the requests that it has sent. `R` is the response of the endpoint.
pub record ReviewState (R : Type 0) : Type 0 where
  pub form : ReviewFields
  pub document_ids : List String
  pub draft_doc_id : String
  pub status : AsyncStatus
  pub error_text : Option String
  pub result : Option R
  pub requests : List EnvironmentalReviewRequest

-- How the request ends: with a response, an `ApiError` with its message, or another exception.
pub data ReviewReply (R : Type 0) : Type 0 where
  reviewed : R → ReviewReply R
  review_refused : String → ReviewReply R
  review_broken : ReviewReply R

abbrev is_success : AsyncStatus → Bool
is_success success = true
is_success _ = false

module _ {R : Type 0} where
  abbrev pub initial_review : String → ReviewState R
  initial_review default_tenant_id = record {
    form = record {
      tenant_id = default_tenant_id;
      case_id = "";
      project_type = "";
      location = "";
      applicant = "";
    };
    document_ids = [];
    draft_doc_id = "";
    status = idle;
    error_text = none;
    result = none;
    requests = [];
  }

  abbrev pub missing_fields : ReviewState R → Bool
  missing_fields s =
      is_empty s.form.tenant_id
      || (is_empty s.form.case_id
          || (is_empty s.form.project_type
              || (is_empty s.form.location
                  || (is_empty s.form.applicant || nat_eq (length s.document_ids) 0))))

  abbrev pub review_payload_of : ReviewState R → EnvironmentalReviewRequest
  review_payload_of s = record {
    tenant_id = s.form.tenant_id;
    case_id = s.form.case_id;
    project_type = s.form.project_type;
    location = s.form.location;
    applicant = s.form.applicant;
    documents = s.document_ids;
  }

  -- `submit` up to its await.
  unfoldable pub submit : ReviewState R → ReviewState R
  submit s = record s {
    status = loading;
    error_text = none;
    result = none;
    requests = s.requests ++ review_payload_of s ∷ [];
  }

  -- The rest of `submit`.
  unfoldable pub settle_review : ReviewReply R → ReviewState R → ReviewState R
  settle_review (reviewed r) s = record s { result = some r; status = success }
  settle_review (review_refused m) s = record s { error_text = some m; status = error }
  settle_review review_broken s = record s {
    error_text = some "The environmental review request failed.";
    status = error;
  }

  -- The button "Add".
  unfoldable pub add_document_id : ReviewState R → ReviewState R
  add_document_id s =
      if is_empty s.draft_doc_id
      then s
      else record s { document_ids = s.document_ids ++ s.draft_doc_id ∷ []; draft_doc_id = "" }

  -- The button "Submit for Review" does nothing while it is disabled.
  unfoldable pub click_submit : ReviewState R → ReviewState R
  click_submit s = if missing_fields s || is_loading s.status then s else submit s

  -- The result that the page shows.
  abbrev pub shown_result : ReviewState R → Option R
  shown_result s = if is_success s.status then s.result else none

pub data ReviewEvent (R : Type 0) : Type 0 where
  edit_tenant_id edit_case_id edit_project_type edit_location edit_applicant :
      String → ReviewEvent R
  edit_doc_id : String → ReviewEvent R
  add_clicked submit_clicked : ReviewEvent R
  remove_clicked : ℕ → ReviewEvent R
  review_ended : ReviewReply R → ReviewEvent R

module _ {R : Type 0} where
  abbrev pub review_step : ReviewEvent R → ReviewState R → ReviewState R
  review_step (edit_tenant_id v) s = record s { form = record (s.form) { tenant_id = v } }
  review_step (edit_case_id v) s = record s { form = record (s.form) { case_id = v } }
  review_step (edit_project_type v) s = record s { form = record (s.form) { project_type = v } }
  review_step (edit_location v) s = record s { form = record (s.form) { location = v } }
  review_step (edit_applicant v) s = record s { form = record (s.form) { applicant = v } }
  review_step (edit_doc_id v) s = record s { draft_doc_id = v }
  review_step add_clicked s = add_document_id s
  review_step submit_clicked s = click_submit s
  review_step (remove_clicked i) s = record s { document_ids = remove_at i s.document_ids }
  review_step (review_ended reply) s = settle_review reply s

  abbrev pub review_run : List (ReviewEvent R) → ReviewState R → ReviewState R
  review_run [] s = s
  review_run (e ∷ es) s = review_run es (review_step e s)
