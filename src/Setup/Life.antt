-- ===== src/Setup/Life.antt =====
-- frontend/app/setup/page.tsx: the timer of the redirect, from the answer that starts it to the end
-- of the page. Timers have handles, numbered in the order in which they are started.
pub mod Tended
pub mod Leaving
pub mod Late
use go_analyze.Prelude.{
  ℕ, suc, String, Bool, false, ◌||◌, Option, none, some, List, [], ◌∷◌, nat_eq, if◌then◌else◌,
}
use go_analyze.Platform.{Room}
use go_analyze.Setup.{WizardState}
use go_analyze.Setup.Finish.{
  read_setup_completed_flag, start_finish, settle_finish, FinishState, SetupReply,
}

-- What `handleFinish` works on; whether the page is mounted; `redirectTimeoutRef`; the timers that
-- have not fired, and the handle of the next; how often `router.push("/")` was called, and how often
-- `router.replace("/")`.
pub record Life : Type 0 where
  pub finish : FinishState
  pub mounted : Bool
  pub redirect_timeout_ref : Option ℕ
  pub timers : List ℕ
  pub next_timer : ℕ
  pub pushes : ℕ
  pub replaces : ℕ

abbrev pub has_timer : ℕ → List ℕ → Bool
has_timer h [] = false
has_timer h (t ∷ ts) = nat_eq h t || has_timer h ts

-- `clearTimeout`: a timer that has fired is not there any more, and nothing happens.
abbrev pub clear_timer : ℕ → List ℕ → List ℕ
clear_timer h [] = []
clear_timer h (t ∷ ts) = let rest = clear_timer h ts in if nat_eq h t then rest else t ∷ rest

pub data LifeEvent : Type 0 where
  opened : LifeEvent  -- the first effect, after the page was opened
  pressed : WizardState → LifeEvent
  answered : SetupReply → LifeEvent
  timer_fired : ℕ → LifeEvent
  page_left : LifeEvent

-- The first effect: a set-up that was completed before is left.
unfoldable pub open_page : Life → Life
unfolding read_setup_completed_flag
open_page l =
    if read_setup_completed_flag (some l.finish.local)
    then record l { replaces = suc l.replaces }
    else l

-- The clean-up of the second effect.
unfoldable pub leave_page : Life → Life
leave_page l = elim l.redirect_timeout_ref [
  | none ↦ record l { mounted = false }
  | some h ↦ record l {
    mounted = false;
    redirect_timeout_ref = none;
    timers = clear_timer h l.timers;
  }
]

module _ (number : ℕ → String) (room : Room) where
  -- The answer to the request under way, whether the page is still there or not.
  unfoldable pub answer_life : SetupReply → Life → Life
  unfolding settle_finish
  answer_life reply l =
      let finish =
        settle_finish number room reply (record l.finish { redirect_scheduled = false }) in
      if finish.redirect_scheduled
      then record l {
        finish = finish;
        redirect_timeout_ref = some l.next_timer;
        timers = l.next_timer ∷ l.timers;
        next_timer = suc l.next_timer;
      }
      else record l { finish = finish }

  unfoldable pub life_step : LifeEvent → Life → Life
  unfolding start_finish open_page leave_page answer_life
  life_step opened l = if l.mounted then open_page l else l
  life_step (pressed w) l =
      if l.mounted then record l { finish = start_finish number room w l.finish } else l
  life_step (answered reply) l = if l.finish.submitting_ref then answer_life reply l else l
  life_step (timer_fired h) l =
      if has_timer h l.timers
      then record l { timers = clear_timer h l.timers; pushes = suc l.pushes }
      else l
  life_step page_left l = leave_page l

  abbrev pub life_run : List LifeEvent → Life → Life
  life_run [] l = l
  life_run (e ∷ es) l = life_run es (life_step e l)
