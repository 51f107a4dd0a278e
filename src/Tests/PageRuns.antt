-- ===== src/Tests/PageRuns.antt =====
-- frontend/hooks and the pages: the theorems at concrete inputs.
use go_analyze.Prelude.{ℕ, List, [], ◌∷◌}
use go_analyze.Pages.Reviews.Orderly.{review_run-IsOrderly, IsOrderly}
use go_analyze.Pages.Reviews.{
  initial_review, review_run, reviewed, ReviewEvent, edit_case_id, edit_project_type, edit_location,
  edit_applicant, edit_doc_id, add_clicked, submit_clicked, review_ended,
}

abbrev reviewing : List (ReviewEvent ℕ)
reviewing =
    edit_case_id "c"
    ∷ edit_project_type "p"
    ∷ edit_location "l"
    ∷ edit_applicant "a"
    ∷ edit_doc_id "d"
    ∷ add_clicked
    ∷ submit_clicked
    ∷ review_ended (reviewed 1)
    ∷ []

initial_review-IsOrderly : IsOrderly {R = ℕ} (initial_review "default")
initial_review-IsOrderly = record { sent = tt; ids = tt }

review_run-IsOrderly_example : IsOrderly (review_run reviewing (initial_review "default"))
review_run-IsOrderly_example =
    review_run-IsOrderly reviewing (initial_review "default") initial_review-IsOrderly
