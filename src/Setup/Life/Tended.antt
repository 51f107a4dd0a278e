-- ===== src/Setup/Life/Tended.antt =====
-- frontend/app/setup/page.tsx: the timers that can be pending, for the accepted answers so far.
use go_analyze.Platform.{Room}
use go_analyze.Setup.Finish.{read_setup_completed_flag, SetupReply}
use go_analyze.Prelude.{
  ℕ, suc, ◌+◌, ◌≤◌, ◌<◌, String, ◌≡◌, refl, ap, ◌∙◌, subst, ◌⊎◌, inl, inr, true, false, some, List,
  [], ◌∷◌, arith, nat_eq, if◌then◌else◌, Bool-cases, Option-cases, if_elim, length,
}
use go_analyze.Setup.Finish.Flag.{is_accepted, settle_finish_cases}
use go_analyze.Setup.Life.{
  has_timer, clear_timer, open_page, opened, leave_page, answer_life, life_step, life_run, Life,
  LifeEvent, pressed, answered, timer_fired, page_left,
}

-- How many answers of a trace accept the configuration.
abbrev pub accepts : List LifeEvent → ℕ
accepts [] = 0
accepts (answered reply ∷ es) = (if is_accepted reply then 1 else 0) + accepts es
accepts (_ ∷ es) = accepts es

-- With `n` accepted answers so far: each stands for one redirect at most, made or to come, and the
-- only one's timer is the one that the page remembers.
pub record IsTended (n : ℕ) (l : Life) : Type 0 where
  pub counted : l.pushes + length l.timers ≤ n
  pub remembered :
      n ≤ 1 → (l.timers ≡ []) ⊎ ((h : ℕ) × (l.timers ≡ h ∷ []) × (l.redirect_timeout_ref ≡ some h))

IsTended-le : {m n : ℕ} (l : Life) → m ≤ n → IsTended m l → IsTended n l
IsTended-le l few t = record {
  counted = omega (arith, few, t.counted);
  remembered = λ single. t.remembered (omega (arith, few, single));
}

length_zero : (ts : List ℕ) → length ts ≤ 0 → ts ≡ []
length_zero [] h = refl
length_zero (t ∷ ts) h = ground (arith, h)

pub accepts-cons :
    (n : ℕ) (e : LifeEvent) (es : List LifeEvent)
    → accepts es + (accepts (e ∷ []) + n) ≡ accepts (e ∷ es) + n
accepts-cons n (answered reply) es = omega arith
accepts-cons n opened es = omega arith
accepts-cons n (pressed w) es = omega arith
accepts-cons n (timer_fired h) es = omega arith
accepts-cons n page_left es = omega arith

length-clear_timer : (h : ℕ) (ts : List ℕ) → length (clear_timer h ts) ≤ length ts
length-clear_timer h [] = omega arith
length-clear_timer h (t ∷ ts) = ground (arith, length-clear_timer h ts)

length-clear_timer_lt :
    (h : ℕ) (ts : List ℕ) → has_timer h ts ≡ true → length (clear_timer h ts) < length ts
length-clear_timer_lt h [] e = ground arith
length-clear_timer_lt h (t ∷ ts) e = elim (Bool-cases (nat_eq h t)) [
  | inl same ↦ rw same (ground (arith, length-clear_timer h ts))
  | inr other ↦ rw other (ground (arith, length-clear_timer_lt h ts (rw other at e)))
]

-- How often the page is opened in a trace.
abbrev pub opens : List LifeEvent → ℕ
opens [] = 0
opens (opened ∷ es) = suc (opens es)
opens (_ ∷ es) = opens es

pub open_page_kept :
    (l : Life)
    → ((open_page l).timers ≡ l.timers)
      × ((open_page l).redirect_timeout_ref ≡ l.redirect_timeout_ref)
      × ((open_page l).pushes ≡ l.pushes)
unfolding open_page
open_page_kept l =
    if_elim
      (λ (m : Life).
        (m.timers ≡ l.timers)
        × (m.redirect_timeout_ref ≡ l.redirect_timeout_ref)
        × (m.pushes ≡ l.pushes))
      (read_setup_completed_flag (some l.finish.local)) (λ _. (refl, refl, refl))
      (λ _. (refl, refl, refl))

pub leave_page_pushes : (l : Life) → (leave_page l).pushes ≡ l.pushes
unfolding leave_page
leave_page_pushes l = ground arith

leave_page-length : (l : Life) → length (leave_page l).timers ≤ length l.timers
unfolding leave_page
leave_page-length l = elim (Option-cases l.redirect_timeout_ref) [
  | inl e ↦ rw e (omega arith)
  | inr (h, e) ↦ rw e (length-clear_timer h l.timers)
]

clear_timer_self : (h : ℕ) → clear_timer h (h ∷ []) ≡ []
clear_timer_self h = ground arith

-- Leaving the page clears the timer that it remembers.
pub leave_page-timers :
    (l : Life)
    → (l.timers ≡ []) ⊎ ((h : ℕ) × (l.timers ≡ h ∷ []) × (l.redirect_timeout_ref ≡ some h))
    → (leave_page l).timers ≡ []
unfolding leave_page
leave_page-timers l (inl e) = elim (Option-cases l.redirect_timeout_ref) [
  | inl n ↦ rw (n, e) refl
  | inr (h, s) ↦ rw (s, e) refl
]
leave_page-timers l (inr (h, e, s)) = rw (s, e) (clear_timer_self h)

fired_alone : (h t : ℕ) → has_timer h (t ∷ []) ≡ true → clear_timer h (t ∷ []) ≡ []
fired_alone h t e = ground arith

module _ (number : ℕ → String) (room : Room) where
  pub answer_life_accepted :
      (reply : SetupReply) (l : Life)
      → is_accepted reply ≡ true
      → let m = answer_life number room reply l in
        (m.timers ≡ l.next_timer ∷ l.timers)
        × (m.redirect_timeout_ref ≡ some l.next_timer)
        × (m.pushes ≡ l.pushes)
  unfolding answer_life
  answer_life_accepted reply l e =
      let f = record l.finish { redirect_scheduled = false } in
      let (_, scheduled, _) = (settle_finish_cases number room reply f).0 e in
      rw scheduled (refl, refl, refl)

  pub answer_life_refused :
      (reply : SetupReply) (l : Life)
      → is_accepted reply ≡ false
      → let m = answer_life number room reply l in
        (m.timers ≡ l.timers)
        × (m.redirect_timeout_ref ≡ l.redirect_timeout_ref)
        × (m.pushes ≡ l.pushes)
  unfolding answer_life
  answer_life_refused reply l e =
      let f = record l.finish { redirect_scheduled = false } in
      let (_, unscheduled) = (settle_finish_cases number room reply f).1 e in
      rw unscheduled (refl, refl, refl)

  answer_life-IsTended :
      (n : ℕ) (reply : SetupReply) (l : Life)
      → IsTended n l
      → IsTended ((if is_accepted reply then 1 else 0) + n) (answer_life number room reply l)
  answer_life-IsTended n reply l t = elim (Bool-cases (is_accepted reply)) [
    | inl e ↦
        let (started, known, same) = answer_life_accepted reply l e in
        rw e (record {
          counted = rw (started, same) (omega (arith, t.counted));
          remembered = λ few. inr (
            l.next_timer,
            started
                ∙ ap (λ ts. l.next_timer ∷ ts) (length_zero l.timers (omega (arith, t.counted))),
            known,
          );
        })
    | inr e ↦
        let (kept, known, same) = answer_life_refused reply l e in
        IsTended-le (answer_life number room reply l) (ground arith) (record {
          counted = rw (kept, same) t.counted;
          remembered = λ few. rw (kept, known) (t.remembered few);
        })
  ]

  timer_fired-IsTended :
      (n h : ℕ) (l : Life) → IsTended n l → IsTended n (life_step number room (timer_fired h) l)
  unfolding life_step
  timer_fired-IsTended n h l t = elim (Bool-cases (has_timer h l.timers)) [
    | inr e ↦ rw e t
    | inl e ↦ rw e (record {
      counted = omega (arith, t.counted, length-clear_timer_lt h l.timers e);
      remembered = λ few. elim (t.remembered few) [
        | inl gone ↦ inl (ap (clear_timer h) gone)
        | inr (k, alone, _) ↦ inl (ap (clear_timer h) alone ∙ fired_alone h k (rw alone at e))
      ];
    })
  ]

  life_step-IsTended :
      (n : ℕ) (e : LifeEvent) (l : Life)
      → IsTended n l
      → IsTended (accepts (e ∷ []) + n) (life_step number room e l)
  unfolding life_step
  life_step-IsTended n opened l t =
      let (kept, known, same) = open_page_kept l in
      IsTended-le {m = n} _ (omega arith) (
        if_elim (IsTended n) l.mounted
          (λ e. record {
            counted = rw (kept, same) t.counted;
            remembered = λ few. rw (kept, known) (t.remembered few);
          })
          (λ e. t))
  life_step-IsTended n (pressed w) l t = IsTended-le {m = n} _ (omega arith) (
      if_elim (IsTended n) l.mounted
        (λ e. record { counted = t.counted; remembered = t.remembered }) (λ e. t))
  life_step-IsTended n (answered reply) l t =
      if_elim (IsTended (accepts (answered reply ∷ []) + n)) l.finish.submitting_ref
        (λ e. IsTended-le _ (omega arith) (answer_life-IsTended n reply l t))
        (λ e. IsTended-le {m = n} _ (omega arith) t)
  life_step-IsTended n (timer_fired h) l t =
      IsTended-le {m = n} _ (omega arith) (timer_fired-IsTended n h l t)
  life_step-IsTended n page_left l t = IsTended-le {m = n} _ (omega arith) (record {
    counted = rw (leave_page_pushes l) (omega (arith, t.counted, leave_page-length l));
    remembered = λ few. inl (leave_page-timers l (t.remembered few));
  })

  pub life_run-IsTended :
      (n : ℕ) (es : List LifeEvent) (l : Life)
      → IsTended n l
      → IsTended (accepts es + n) (life_run number room es l)
  life_run-IsTended n [] l t = IsTended-le l (omega arith) t
  life_run-IsTended n (e ∷ es) l t =
      subst (λ k. IsTended k (life_run number room (e ∷ es) l)) (accepts-cons n e es)
        (life_run-IsTended (accepts (e ∷ []) + n) es (life_step number room e l)
          (life_step-IsTended n e l t))
