-- ===== src/Pages/Cases/Trace.antt =====
-- frontend/app/cases/[case_id]/page.tsx: assignments, over every order of choices, clicks and answers.
use go_analyze.Prelude.{
  ℕ, suc, ◌+◌, ◌≤◌, String, ◌≡◌, refl, ◌∙◌, subst, true, false, some, List, [], ◌∷◌, arith,
  if◌then◌else◌, is_some, if_elim, length, length-append, All, All-append,
}
use go_analyze.Api.Endpoints.{assign, Endpoint}
use go_analyze.Hooks.{is_loading, is_error, AsyncStatus, loading, success, Ended, resolved, thrown}
use go_analyze.Ui.{Thrown}
use go_analyze.Pages.Cases.{
  skill_text, initial_case, start_assign, settle_assign, case_step, case_run, Skill, CaseState,
  CaseEvent, chosen, clicked, assigned,
}

-- A request to assign this case, with one of the five skills.
abbrev pub IsAssign : String → Endpoint → Type 0
IsAssign case_id e = (k : Skill) × (e ≡ assign case_id (some (skill_text k)))

-- How many answers a trace has.
abbrev pub assignments : {R : Type 0} → List (CaseEvent R) → ℕ
assignments [] = 0
assignments (assigned r ∷ es) = suc (assignments es)
assignments (chosen k ∷ es) = assignments es
assignments (clicked ∷ es) = assignments es

-- With `n` answers so far: the requests are for this case, all but the one under way were answered,
-- an error is there exactly after a request that failed, and a success has its response.
pub record IsAssigning {R : Type 0} (case_id : String) (n : ℕ) (s : CaseState R) : Type 0 where
  pub asked : All (IsAssign case_id) s.requests
  pub one_at_a_time : length s.requests ≤ n + (if is_loading s.status then 1 else 0)
  pub error_follows : is_some s.error_text ≡ is_error s.status
  pub response_there : s.status ≡ success → is_some s.result ≡ true

IsAssigning-le :
    {R : Type 0} {case_id : String} {m n : ℕ} (s : CaseState R)
    → m ≤ n
    → IsAssigning case_id m s
    → IsAssigning case_id n s
IsAssigning-le s more h = record {
  asked = h.asked;
  one_at_a_time = omega (arith, h.one_at_a_time, more);
  error_follows = h.error_follows;
  response_there = h.response_there;
}

loading_no_error : (st : AsyncStatus) → is_loading st ≡ true → is_error st ≡ false
loading_no_error loading h = refl
loading_no_error _ h = cc

module _ {R : Type 0} (case_id : String) where
  initial_case-IsAssigning : IsAssigning case_id 0 (initial_case {R = R})
  unfolding initial_case
  initial_case-IsAssigning = record {
    asked = tt;
    one_at_a_time = omega arith;
    error_follows = refl;
    response_there = λ e. ground arith;
  }

  start_assign-IsAssigning :
      (n : ℕ) (s : CaseState R)
      → is_loading s.status ≡ false
      → IsAssigning case_id n s
      → IsAssigning case_id n (start_assign case_id s)
  unfolding start_assign
  start_assign-IsAssigning n s idle_now h = record {
    asked =
        All-append (IsAssign case_id) s.requests (assign case_id (some (skill_text s.skill)) ∷ [])
          h.asked ((s.skill, refl), tt);
    one_at_a_time = ground (
      arith,
      h.one_at_a_time,
      length-append s.requests (assign case_id (some (skill_text s.skill)) ∷ []),
    );
    error_follows = refl;
    response_there = λ e. ground arith;
  }

  settle_assign-IsAssigning :
      (n : ℕ) (r : Ended R Thrown) (s : CaseState R)
      → is_loading s.status ≡ true
      → IsAssigning case_id n s
      → IsAssigning case_id (suc n) (settle_assign r s)
  unfolding settle_assign
  settle_assign-IsAssigning n (resolved r) s busy h = record {
    asked = h.asked;
    one_at_a_time = ground (arith, h.one_at_a_time);
    error_follows = h.error_follows ∙ loading_no_error s.status busy;
    response_there = λ e. refl;
  }
  settle_assign-IsAssigning n (thrown e) s busy h = record {
    asked = h.asked;
    one_at_a_time = ground (arith, h.one_at_a_time);
    error_follows = refl;
    response_there = λ f. ground arith;
  }

  case_step-IsAssigning :
      (n : ℕ) (e : CaseEvent R) (s : CaseState R)
      → IsAssigning case_id n s
      → IsAssigning case_id (assignments (e ∷ []) + n) (case_step case_id e s)
  unfolding case_step
  case_step-IsAssigning n (chosen k) s h = IsAssigning-le {m = n} _ (omega arith) (record {
    asked = h.asked;
    one_at_a_time = h.one_at_a_time;
    error_follows = h.error_follows;
    response_there = h.response_there;
  })
  case_step-IsAssigning n clicked s h = IsAssigning-le {m = n} _ (omega arith) (
      if_elim (IsAssigning case_id n) (is_loading s.status) (λ busy. h)
        (λ free. start_assign-IsAssigning n s free h))
  case_step-IsAssigning n (assigned r) s h =
      if_elim (IsAssigning case_id (1 + n)) (is_loading s.status)
        (λ busy.
          IsAssigning-le {m = suc n} _ (omega arith) (settle_assign-IsAssigning n r s busy h))
        (λ free. IsAssigning-le {m = n} s (omega arith) h)

  assignments-cons :
      (n : ℕ) (e : CaseEvent R) (es : List (CaseEvent R))
      → assignments es + (assignments (e ∷ []) + n) ≡ assignments (e ∷ es) + n
  assignments-cons n (chosen k) es = omega arith
  assignments-cons n clicked es = omega arith
  assignments-cons n (assigned r) es = omega arith

  case_run_from :
      (n : ℕ) (es : List (CaseEvent R)) (s : CaseState R)
      → IsAssigning case_id n s
      → IsAssigning case_id (assignments es + n) (case_run case_id es s)
  case_run_from n [] s h = IsAssigning-le {m = n} s (omega arith) h
  case_run_from n (e ∷ es) s h =
      subst (λ k. IsAssigning case_id k (case_run case_id (e ∷ es) s)) (assignments-cons n e es)
        (case_run_from (assignments (e ∷ []) + n) es (case_step case_id e s)
          (case_step-IsAssigning n e s h))

  -- Over every order of choices, clicks and answers from a page that was just opened: each request
  -- assigns the case of the page with one of the five skills, at most one is not answered yet, an
  -- error is there exactly after a request that failed, and after one that succeeded its response is.
  case_run-IsAssigning :
      (es : List (CaseEvent R))
      → IsAssigning case_id (assignments es) (case_run case_id es initial_case)
  case_run-IsAssigning es =
      IsAssigning-le _ (omega arith) (case_run_from 0 es initial_case initial_case-IsAssigning)
