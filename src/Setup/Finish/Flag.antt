-- ===== src/Setup/Finish/Flag.antt =====
-- frontend/app/setup/page.tsx: which answers complete the set-up.
use go_analyze.Types.{SetupConfigurationResult}
use go_analyze.Prelude.{
  not, Option, if◌then◌else◌, ℕ, String, ◌≡◌, refl, inl, inr, Bool, true, false, ◌&&◌, ◌||◌, none,
  some, arith, Bool-cases, is_some, and_true,
}
use go_analyze.Platform.{Storage, Room, try_set_item, get_item-set_item_self, is_ok_status}
use go_analyze.Json.{Json}
use go_analyze.Setup.Response.{is_setup_response, read_setup_response}
use go_analyze.Setup.Finish.{
  setup_completed_key, read_setup_completed_flag, write_setup_completed_flag, settle_body,
  settle_reply, settle_finish, FinishState, SetupReply, timed_out, unreachable, responded,
}

-- The answers that count: a status from 200 to 299, a body of the right form, and that accepts.
abbrev pub is_accepted : SetupReply → Bool
is_accepted (responded status (some raw)) =
    is_ok_status status && (is_setup_response raw && (read_setup_response raw).accepted)
is_accepted _ = false

-- The answers that the page can show: such a status, and a body of the right form.
abbrev pub is_readable : SetupReply → Bool
is_readable (responded status (some raw)) = is_ok_status status && is_setup_response raw
is_readable _ = false

-- The fields of the body.
abbrev pub answer_of : SetupReply → Option SetupConfigurationResult
answer_of (responded status (some raw)) = some (read_setup_response raw)
answer_of _ = none

flag_set :
    (room : Room) (s : Storage)
    → room s setup_completed_key "true" ≡ true
    → read_setup_completed_flag (some (write_setup_completed_flag room s)) ≡ true
unfolding read_setup_completed_flag write_setup_completed_flag try_set_item
flag_set room s space = rw (
  write_setup_completed_flag,
  space,
  get_item-set_item_self setup_completed_key "true" s,
  read_setup_completed_flag,
)

module _ (number : ℕ → String) (room : Room) where
  settle_body_accepted :
      (status : ℕ) (raw : Json) (s : FinishState)
      → is_ok_status status ≡ true
      → is_setup_response raw ≡ true
      → (read_setup_response raw).accepted ≡ true
      → settle_body number room status raw s ≡ record s {
        result = some (read_setup_response raw);
        local = write_setup_completed_flag room s.local;
        redirect_scheduled = true;
      }
  unfolding settle_body
  settle_body_accepted status raw s ok valid accepts = rw (settle_body, ok, valid) (rw accepts)

  settle_body_refused :
      (status : ℕ) (raw : Json) (s : FinishState)
      → is_accepted (responded status (some raw)) ≡ false
      → ((settle_body number room status raw s).local ≡ s.local)
        × ((settle_body number room status raw s).redirect_scheduled ≡ s.redirect_scheduled)
  unfolding settle_body
  settle_body_refused status raw s e = ground arith

  pub settle_finish_cases :
      (reply : SetupReply) (s : FinishState)
      → let t = settle_finish number room reply s in
        (is_accepted reply ≡ true
          → (is_some t.result ≡ true)
            × (t.redirect_scheduled ≡ true)
            × (room s.local setup_completed_key "true" ≡ true
                → read_setup_completed_flag (some t.local) ≡ true))
        × (is_accepted reply ≡ false
            → (t.local ≡ s.local) × (t.redirect_scheduled ≡ s.redirect_scheduled))
  unfolding settle_finish settle_reply
  settle_finish_cases timed_out s = (λ e. cc, λ e. (refl, refl))
  settle_finish_cases unreachable s = (λ e. cc, λ e. (refl, refl))
  settle_finish_cases (responded status none) s = (λ e. cc, λ e. (refl, refl))
  settle_finish_cases (responded status (some raw)) s = (
    λ e.
        let (ok, rest) = and_true _ _ e in
        let (valid, accepts) = and_true _ _ rest in
        rw (settle_body_accepted status raw s ok valid accepts)
          (refl, refl, λ space. flag_set room s.local space),
    settle_body_refused status raw s,
  )

  settle_body_shown :
      (status : ℕ) (raw : Json) (s : FinishState)
      → let t = settle_body number room status raw s in
        (t.result ≡ (
          if is_readable (responded status (some raw))
          then some (read_setup_response raw)
          else s.result))
        × (is_some t.error_text
            ≡ (not (is_readable (responded status (some raw))) || is_some s.error_text))
  unfolding settle_body
  settle_body_shown status raw s = elim (Bool-cases (is_ok_status status)) [
    | inr bad ↦ rw (settle_body, bad) (refl, refl)
    | inl ok ↦ elim (Bool-cases (is_setup_response raw)) [
      | inr odd ↦ rw (settle_body, ok, odd) (refl, refl)
      | inl valid ↦ elim (Bool-cases (read_setup_response raw).accepted) [
        | inl accepts ↦ rw (settle_body, ok, valid) (rw accepts (refl, refl))
        | inr refuses ↦ rw (settle_body, ok, valid) (rw refuses (refl, refl))
      ]
    ]
  ]

  -- What is shown after an answer.
  settle_finish_shown :
      (reply : SetupReply) (s : FinishState)
      → let t = settle_finish number room reply s in
        (t.result ≡ (if is_readable reply then answer_of reply else s.result))
        × (is_some t.error_text ≡ (not (is_readable reply) || is_some s.error_text))
  unfolding settle_finish settle_reply
  settle_finish_shown timed_out s = (refl, refl)
  settle_finish_shown unreachable s = (refl, refl)
  settle_finish_shown (responded status none) s = (refl, refl)
  settle_finish_shown (responded status (some raw)) s = settle_body_shown status raw s

  -- Where the browser takes the write of the flag: exactly an answer that accepts the configuration,
  -- that is, with a status from 200 to 299 and a body of the right form whose field `accepted` is true,
  -- adds the redirect and the flag that the page reads at its next visit to those that were there.
  -- Exactly an answer with such a status and such a body is shown as the result, with its fields,
  -- whether it accepts or not, and any other answer shows an error and leaves the result as it was.
  pub settle_finish-flag :
      (reply : SetupReply) (s : FinishState)
      → room s.local setup_completed_key "true" ≡ true
      → let t = settle_finish number room reply s in
        (t.redirect_scheduled ≡ (is_accepted reply || s.redirect_scheduled))
        × (read_setup_completed_flag (some t.local)
            ≡ (is_accepted reply || read_setup_completed_flag (some s.local)))
        × (t.result ≡ (if is_readable reply then answer_of reply else s.result))
        × (is_some t.error_text ≡ (not (is_readable reply) || is_some s.error_text))
  settle_finish-flag reply s space =
      let (counts, fails) = settle_finish_cases reply s in
      let (result, message) = settle_finish_shown reply s in
      elim (Bool-cases (is_accepted reply)) [
        | inl counted ↦
            let (_, sent, set) = counts counted in
            rw (counted, sent, set space) (refl, refl, result, message)
        | inr failed ↦
            let (same, unsent) = fails failed in
            rw (failed, same, unsent) (refl, refl, result, message)
      ]
