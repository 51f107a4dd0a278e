-- ===== src/Pages/Processing/Trace.antt =====
-- frontend/app/documents/[document_id]/page.tsx and frontend/app/analysis/[document_id]/page.tsx: a
-- session of one of the two pages.
use go_analyze.Prelude.{
  ℕ, suc, ◌+◌, ◌≡◌, refl, ◌∙◌, inl, inr, Bool, true, false, List, [], ◌∷◌, arith, if◌then◌else◌,
  Bool-cases, is_some,
}
use go_analyze.Types.{DocumentProcessingResult}
use go_analyze.Hooks.{
  is_loading, is_error, initial_async, start, settle, AsyncStatus, idle, loading, success, error,
  AsyncState, Ended, resolved, thrown,
}
use go_analyze.Ui.{button, Thrown}
use go_analyze.Pages.Processing.{run_button}

module _ (Json Score : Type 0) where
  -- A press of the button, which does nothing while it is disabled, or the end of a run, which there
  -- is only while one is under way.
  pub data ProcessEvent : Type 0 where
    pressed : ProcessEvent
    answered : Ended (DocumentProcessingResult Json Score) Thrown → ProcessEvent

  -- The state of the hook, and how many requests were sent and how many have ended.
  pub record Session : Type 0 where
    pub hook : AsyncState (DocumentProcessingResult Json Score) Thrown
    pub sent : ℕ
    pub answers : ℕ

  abbrev pub first_session : Session
  first_session = record { hook = initial_async; sent = 0; answers = 0 }

  abbrev pub process_step : ProcessEvent → Session → Session
  process_step pressed s =
      if is_loading s.hook.status then s else record s { hook = start s.hook; sent = suc s.sent }
  process_step (answered r) s =
      if is_loading s.hook.status
      then record s { hook = settle r s.hook; answers = suc s.answers }
      else s

  abbrev pub process_run : List ProcessEvent → Session → Session
  process_run [] s = s
  process_run (e ∷ es) s = process_run es (process_step e s)

  -- One request at most is under way; an error is there exactly if the last run has failed; and a
  -- success has its result.
  pub record IsSingle (s : Session) : Type 0 where
    pub in_flight : s.sent ≡ s.answers + (if is_loading s.hook.status then 1 else 0)
    pub error_iff : is_some s.hook.failure ≡ is_error s.hook.status
    pub success_has_value : s.hook.status ≡ success → is_some s.hook.value ≡ true

not_error : (status : AsyncStatus) → is_loading status ≡ true → is_error status ≡ false
not_error idle e = refl
not_error loading e = refl
not_error success e = refl
not_error error e = cc

module _ {Json Score : Type 0} where
  pressed-IsSingle :
      (b : Bool) (s : Session Json Score)
      → is_loading s.hook.status ≡ b
      → IsSingle Json Score s
      → IsSingle Json Score (if b then s else record s { hook = start s.hook; sent = suc s.sent })
  unfolding start
  pressed-IsSingle true s e h = h
  pressed-IsSingle false s e h = record {
    in_flight = ground (arith, e, h.in_flight);
    error_iff = refl;
    success_has_value = λ k. cc;
  }

  answered-IsSingle :
      (b : Bool) (r : Ended (DocumentProcessingResult Json Score) Thrown) (s : Session Json Score)
      → is_loading s.hook.status ≡ b
      → IsSingle Json Score s
      → IsSingle Json Score
          (if b then record s { hook = settle r s.hook; answers = suc s.answers } else s)
  unfolding settle
  answered-IsSingle false r s e h = h
  answered-IsSingle true (resolved v) s e h = record {
    in_flight = ground (arith, e, h.in_flight);
    error_iff = h.error_iff ∙ not_error s.hook.status e;
    success_has_value = λ k. refl;
  }
  answered-IsSingle true (thrown x) s e h = record {
    in_flight = ground (arith, e, h.in_flight);
    error_iff = refl;
    success_has_value = λ k. cc;
  }

  process_step-IsSingle :
      (e : ProcessEvent Json Score) (s : Session Json Score)
      → IsSingle Json Score s
      → IsSingle Json Score (process_step Json Score e s)
  process_step-IsSingle pressed s h = pressed-IsSingle (is_loading s.hook.status) s refl h
  process_step-IsSingle (answered r) s h = answered-IsSingle (is_loading s.hook.status) r s refl h

  process_run_from :
      (es : List (ProcessEvent Json Score)) (s : Session Json Score)
      → IsSingle Json Score s
      → IsSingle Json Score (process_run Json Score es s)
  process_run_from [] s h = h
  process_run_from (e ∷ es) s h =
      process_run_from es (process_step Json Score e s) (process_step-IsSingle e s h)

  -- However a user presses the button and runs end: one processing request at most is under way, and
  -- the page waits exactly while there is one; an error is shown exactly if the last run has failed;
  -- and after a run that has not, there is a result to show.
  pub process_run-IsSingle :
      (es : List (ProcessEvent Json Score))
      → IsSingle Json Score (process_run Json Score es (first_session Json Score))
  process_run-IsSingle es =
      process_run_from es (first_session Json Score)
        (record { in_flight = refl; error_iff = refl; success_has_value = λ k. cc })

  settled_status :
      (r : Ended (DocumentProcessingResult Json Score) Thrown)
      (s : AsyncState (DocumentProcessingResult Json Score) Thrown)
      → is_loading (settle r s).status ≡ false
  unfolding settle
  settled_status (resolved v) s = refl
  settled_status (thrown x) s = refl

  answered_idle :
      (r : Ended (DocumentProcessingResult Json Score) Thrown) (s : Session Json Score)
      → is_loading (process_step Json Score (answered r) s).hook.status ≡ false
  answered_idle r s = elim (Bool-cases (is_loading s.hook.status)) [
    | inl waits ↦ rw waits (settled_status r s.hook)
    | inr waits_not ↦ rw waits_not waits_not
  ]

  -- Whatever has happened, the end of a run makes the button of the analysis page usable again, with
  -- the text for a result that is there or not, and the next press sends one more request.
  pub process_run-usable :
      (es : List (ProcessEvent Json Score)) (r : Ended (DocumentProcessingResult Json Score) Thrown)
      → let s =
          process_step Json Score
            (answered r)
            (process_run Json Score es (first_session Json Score)) in
        (run_button s.hook
          ≡ button (if is_some s.hook.value then "Re-run Processing" else "Run Processing") false)
        × ((process_step Json Score pressed s).sent ≡ suc s.sent)
        × (is_loading (process_step Json Score pressed s).hook.status ≡ true)
  unfolding start
  process_run-usable es r =
      let before = process_run Json Score es (first_session Json Score) in
      let e = answered_idle r before in (rw e refl, rw e refl, rw e refl)
