-- ===== src/Pages/Reviews/Orderly.antt =====
-- frontend/app/environmental-reviews/page.tsx: the requests that the page sends.
use go_analyze.Hooks.{is_loading}
use go_analyze.Prelude.{
  ◌<◌, ◌≡◌, inl, inr, false, ◌||◌, List, [], ◌∷◌, arith, Bool-cases, is_empty, length, All,
  All-append,
}
use go_analyze.Types.{EnvironmentalReviewRequest}
use go_analyze.Pages.Citations.{All-remove_at}
use go_analyze.Pages.Reviews.{
  missing_fields, review_payload_of, submit, settle_review, add_document_id, click_submit,
  review_step, review_run, ReviewState, ReviewReply, reviewed, review_refused, review_broken,
  ReviewEvent, edit_tenant_id, edit_case_id, edit_project_type, edit_location, edit_applicant,
  edit_doc_id, add_clicked, submit_clicked, remove_clicked, review_ended,
}

-- A request of which the backend can find every part.
pub record IsFilled (r : EnvironmentalReviewRequest) : Type 0 where
  pub tenant_given : is_empty r.tenant_id ≡ false
  pub case_given : is_empty r.case_id ≡ false
  pub project_given : is_empty r.project_type ≡ false
  pub location_given : is_empty r.location ≡ false
  pub applicant_given : is_empty r.applicant ≡ false
  pub documents_given : 0 < length r.documents
  pub ids_given : All (λ id. is_empty id ≡ false) r.documents

-- Every request sent was filled in, and so is every document id of the list.
pub record IsOrderly {R : Type 0} (s : ReviewState R) : Type 0 where
  pub sent : All IsFilled s.requests
  pub ids : All (λ id. is_empty id ≡ false) s.document_ids

module _ {R : Type 0} where
  payload-IsFilled :
      (s : ReviewState R)
      → missing_fields s ≡ false
      → All (λ id. is_empty id ≡ false) s.document_ids
      → IsFilled (review_payload_of s)
  payload-IsFilled s h ids = record {
    tenant_given = ground arith;
    case_given = ground arith;
    project_given = ground arith;
    location_given = ground arith;
    applicant_given = ground arith;
    documents_given = ground arith;
    ids_given = ids;
  }

  submit-IsOrderly :
      (s : ReviewState R) → missing_fields s ≡ false → IsOrderly s → IsOrderly (submit s)
  unfolding submit
  submit-IsOrderly s full h = record {
    sent =
        All-append IsFilled s.requests (review_payload_of s ∷ []) h.sent
          (payload-IsFilled s full h.ids, tt);
    ids = h.ids;
  }

  click_submit-IsOrderly : (s : ReviewState R) → IsOrderly s → IsOrderly (click_submit s)
  unfolding click_submit
  click_submit-IsOrderly s h = elim (Bool-cases (missing_fields s || is_loading s.status)) [
    | inl disabled ↦ rw (click_submit, disabled) h
    | inr enabled ↦ rw (click_submit, enabled) (submit-IsOrderly s (ground arith) h)
  ]

  add_document_id-IsOrderly : (s : ReviewState R) → IsOrderly s → IsOrderly (add_document_id s)
  unfolding add_document_id
  add_document_id-IsOrderly s h = elim (Bool-cases (is_empty s.draft_doc_id)) [
    | inl blank ↦ rw (add_document_id, blank) h
    | inr given ↦
        rw (add_document_id, given)
          (record {
            sent = h.sent;
            ids =
                All-append (λ id. is_empty id ≡ false) s.document_ids (s.draft_doc_id ∷ []) h.ids
                  (given, tt);
          })
  ]

  settle_review-IsOrderly :
      (reply : ReviewReply R) (s : ReviewState R) → IsOrderly s → IsOrderly (settle_review reply s)
  unfolding settle_review
  settle_review-IsOrderly (reviewed r) s h = record { sent = h.sent; ids = h.ids }
  settle_review-IsOrderly (review_refused m) s h = record { sent = h.sent; ids = h.ids }
  settle_review-IsOrderly review_broken s h = record { sent = h.sent; ids = h.ids }

  review_step-IsOrderly :
      (e : ReviewEvent R) (s : ReviewState R) → IsOrderly s → IsOrderly (review_step e s)
  review_step-IsOrderly add_clicked s h = add_document_id-IsOrderly s h
  review_step-IsOrderly submit_clicked s h = click_submit-IsOrderly s h
  review_step-IsOrderly (review_ended reply) s h = settle_review-IsOrderly reply s h
  review_step-IsOrderly (remove_clicked i) s h = record {
    sent = h.sent;
    ids = All-remove_at (λ id. is_empty id ≡ false) i s.document_ids h.ids;
  }
  review_step-IsOrderly (edit_tenant_id v) s h = record { sent = h.sent; ids = h.ids }
  review_step-IsOrderly (edit_case_id v) s h = record { sent = h.sent; ids = h.ids }
  review_step-IsOrderly (edit_project_type v) s h = record { sent = h.sent; ids = h.ids }
  review_step-IsOrderly (edit_location v) s h = record { sent = h.sent; ids = h.ids }
  review_step-IsOrderly (edit_applicant v) s h = record { sent = h.sent; ids = h.ids }
  review_step-IsOrderly (edit_doc_id v) s h = record { sent = h.sent; ids = h.ids }

  -- Whatever the user does and however the requests end, in any order: if every request sent so far
  -- has all its fields and at least one document id, no id being empty, so has every one afterwards,
  -- and no id of the list is empty.
  pub review_run-IsOrderly :
      (es : List (ReviewEvent R)) (s : ReviewState R) → IsOrderly s → IsOrderly (review_run es s)
  review_run-IsOrderly [] s h = h
  review_run-IsOrderly (e ∷ es) s h =
      review_run-IsOrderly es (review_step e s) (review_step-IsOrderly e s h)
