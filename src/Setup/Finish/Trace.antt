-- ===== src/Setup/Finish/Trace.antt =====
-- frontend/app/setup/page.tsx: submissions, over every order of clicks and answers.
use go_analyze.Prelude.{
  ℕ, suc, ◌+◌, ◌≤◌, String, ◌≡◌, refl, sym, ap, subst, ◌⊎◌, inl, inr, true, none, some, List, [],
  ◌∷◌, arith, if◌then◌else◌, Bool-cases, length, length-append,
}
use go_analyze.Platform.{Room}
use go_analyze.Setup.{payload, WizardState}
use go_analyze.Setup.Finish.{
  start_finish, settle_body, settle_reply, settle_finish, FinishState, SetupReply, timed_out,
  unreachable, responded,
}

-- A click on "Finish setup" with the form as it stands then, or the end of the request.
pub data FinishEvent : Type 0 where
  clicked : WizardState → FinishEvent
  settled : SetupReply → FinishEvent

pub record IsConsistent (s : FinishState) : Type 0 where
  pub button_follows : s.submitting ≡ s.submitting_ref
  pub cleared : s.submitting_ref ≡ true → (s.error_text ≡ none) × (s.result ≡ none)
  pub exclusive : (s.error_text ≡ none) ⊎ (s.result ≡ none)

module _ (number : ℕ → String) (room : Room) where
  -- An answer arrives only for a request that is under way.
  abbrev pub finish_step : FinishEvent → FinishState → FinishState
  finish_step (clicked w) s = start_finish number room w s
  finish_step (settled reply) s = if s.submitting_ref then settle_finish number room reply s else s

  abbrev pub finish_run : List FinishEvent → FinishState → FinishState
  finish_run [] s = s
  finish_run (e ∷ es) s = finish_run es (finish_step e s)

  settle_reply-exclusive :
      (reply : SetupReply) (s : FinishState)
      → s.error_text ≡ none
      → s.result ≡ none
      → ((settle_reply number room reply s).error_text ≡ none)
        ⊎ ((settle_reply number room reply s).result ≡ none)
  unfolding settle_reply settle_body
  settle_reply-exclusive timed_out s e r = inr r
  settle_reply-exclusive unreachable s e r = inr r
  settle_reply-exclusive (responded status none) s e r = inr r
  settle_reply-exclusive (responded status (some raw)) s e r = ground arith

  start_finish-IsConsistent :
      (w : WizardState) (s : FinishState)
      → IsConsistent s
      → IsConsistent (start_finish number room w s)
  unfolding start_finish
  start_finish-IsConsistent w s h = ground arith

  settle_finish-IsConsistent :
      (reply : SetupReply) (s : FinishState)
      → IsConsistent s
      → s.submitting_ref ≡ true
      → IsConsistent (settle_finish number room reply s)
  unfolding settle_finish
  settle_finish-IsConsistent reply s h busy = record {
    button_follows = refl;
    cleared = λ e. cc;
    exclusive = settle_reply-exclusive reply s (h.cleared busy).0 (h.cleared busy).1;
  }

  finish_step-IsConsistent :
      (e : FinishEvent) (s : FinishState) → IsConsistent s → IsConsistent (finish_step e s)
  finish_step-IsConsistent (clicked w) s h = start_finish-IsConsistent w s h
  finish_step-IsConsistent (settled reply) s h = elim (Bool-cases s.submitting_ref) [
    | inl busy ↦
        subst (λ b. IsConsistent (if b then settle_finish number room reply s else s)) (sym busy)
          (settle_finish-IsConsistent reply s h busy)
    | inr idle ↦
        subst (λ b. IsConsistent (if b then settle_finish number room reply s else s)) (sym idle) h
  ]

  -- Over every order of clicks and answers: the button is disabled exactly while a submission is
  -- under way, an earlier error or result is gone then, and the two are never shown together.
  pub finish_run-IsConsistent :
      (es : List FinishEvent) (s : FinishState) → IsConsistent s → IsConsistent (finish_run es s)
  finish_run-IsConsistent [] s h = h
  finish_run-IsConsistent (e ∷ es) s h =
      finish_run-IsConsistent es (finish_step e s) (finish_step-IsConsistent e s h)

  -- How many answers a trace has.
  abbrev pub answers : List FinishEvent → ℕ
  answers [] = 0
  answers (clicked w ∷ es) = answers es
  answers (settled reply ∷ es) = suc (answers es)

  -- Room for one more request: none while one is under way.
  abbrev free : FinishState → ℕ
  free s = if s.submitting_ref then 0 else 1

  settle_reply-keeps :
      (reply : SetupReply) (s : FinishState)
      → (settle_reply number room reply s).requests ≡ s.requests
  unfolding settle_reply settle_body
  settle_reply-keeps timed_out s = refl
  settle_reply-keeps unreachable s = refl
  settle_reply-keeps (responded status none) s = refl
  settle_reply-keeps (responded status (some raw)) s = ground arith

  settle_finish-requests :
      (reply : SetupReply) (s : FinishState)
      → length (settle_finish number room reply s).requests ≡ length s.requests
  unfolding settle_finish
  settle_finish-requests reply s = ap length (settle_reply-keeps reply s)

  settle_finish-free :
      (reply : SetupReply) (s : FinishState) → free (settle_finish number room reply s) ≡ 1
  unfolding settle_finish
  settle_finish-free reply s = refl

  step-requests :
      (e : FinishEvent) (s : FinishState)
      → length (finish_step e s).requests + free (finish_step e s)
        ≤ length s.requests + free s + answers (e ∷ [])
  unfolding start_finish
  step-requests (clicked w) s = ground (arith, length-append s.requests (payload w ∷ []))
  step-requests (settled reply) s =
      ground (arith, settle_finish-requests reply s, settle_finish-free reply s)

  run-requests :
      (es : List FinishEvent) (s : FinishState)
      → length (finish_run es s).requests + free (finish_run es s)
        ≤ length s.requests + free s + answers es
  run-requests [] s = omega arith
  run-requests (clicked w ∷ es) s =
      omega (arith, step-requests (clicked w) s, run-requests es (finish_step (clicked w) s))
  run-requests (settled reply ∷ es) s =
      omega
        (arith, step-requests (settled reply) s, run-requests es (finish_step (settled reply) s))

  -- At most one request is under way: over every order of clicks and answers, the requests sent are
  -- at most one more than the answers.
  finish_run-requests :
      (es : List FinishEvent) (s : FinishState)
      → s.requests ≡ []
      → length (finish_run es s).requests ≤ answers es + 1
  finish_run-requests es s fresh = ground (arith, run-requests es s, ap length fresh)
