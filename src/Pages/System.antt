-- ===== src/Pages/System.antt =====
-- frontend/app/system/page.tsx: the three checks of the system, which run at the same time.
use go_analyze.Prelude.{String, ◌≡◌, refl, true, Option, none, some, List, [], ◌∷◌, is_some}

pub data SlotStatus : Type 0 where
  loading success error : SlotStatus

pub record Slot (A E : Type 0) : Type 0 where
  pub status : SlotStatus
  pub value : Option A
  pub failure : Option E
  pub checked_at : Option String

-- How a check ends, with the time at which it does.
pub data Checked (A E : Type 0) : Type 0 where
  reached : A → String → Checked A E
  unreached : E → String → Checked A E

module _ {A E : Type 0} where
  abbrev pub initial_slot : Slot A E
  initial_slot = record { status = loading; value = none; failure = none; checked_at = none }

  -- `setHealth((s) => ({ ...s, status: "loading" }))`.
  unfoldable pub reload : Slot A E → Slot A E
  reload s = record s { status = loading }

  unfoldable pub settle_slot : Checked A E → Slot A E
  settle_slot (reached a at_time) = record {
    status = success;
    value = some a;
    failure = none;
    checked_at = some at_time;
  }
  settle_slot (unreached e at_time) = record {
    status = error;
    value = none;
    failure = some e;
    checked_at = some at_time;
  }

module _ (H R M E : Type 0) where
  pub record SystemState : Type 0 where
    pub health : Slot H E
    pub ready : Slot R E
    pub metrics : Slot M E

  abbrev pub initial_system : SystemState
  initial_system = record { health = initial_slot; ready = initial_slot; metrics = initial_slot }

  -- A refresh, by the first render or the button, and the ends of the checks.
  pub data SystemEvent : Type 0 where
    refreshed : SystemEvent
    health_checked : Checked H E → SystemEvent
    ready_checked : Checked R E → SystemEvent
    metrics_checked : Checked M E → SystemEvent

  unfoldable pub refresh_system : SystemState → SystemState
  refresh_system s = record {
    health = reload s.health;
    ready = reload s.ready;
    metrics = reload s.metrics;
  }

  unfoldable pub system_step : SystemEvent → SystemState → SystemState
  unfolding refresh_system
  system_step refreshed s = refresh_system s
  system_step (health_checked c) s = record s { health = settle_slot c }
  system_step (ready_checked c) s = record s { ready = settle_slot c }
  system_step (metrics_checked c) s = record s { metrics = settle_slot c }

  abbrev pub system_run : List SystemEvent → SystemState → SystemState
  system_run [] s = s
  system_run (e ∷ es) s = system_run es (system_step e s)

  -- One slot by itself: what a refresh and the ends of its own check do to it, `none` being a
  -- refresh.
  abbrev pub slot_run : {A : Type 0} → List (Option (Checked A E)) → Slot A E → Slot A E
  slot_run [] s = s
  slot_run (none ∷ es) s = slot_run es (reload s)
  slot_run (some c ∷ es) s = slot_run es (settle_slot c)

  abbrev pub health_events : List SystemEvent → List (Option (Checked H E))
  health_events [] = []
  health_events (refreshed ∷ es) = none ∷ health_events es
  health_events (health_checked c ∷ es) = some c ∷ health_events es
  health_events (_ ∷ es) = health_events es

  abbrev pub ready_events : List SystemEvent → List (Option (Checked R E))
  ready_events [] = []
  ready_events (refreshed ∷ es) = none ∷ ready_events es
  ready_events (ready_checked c ∷ es) = some c ∷ ready_events es
  ready_events (_ ∷ es) = ready_events es

  abbrev pub metrics_events : List SystemEvent → List (Option (Checked M E))
  metrics_events [] = []
  metrics_events (refreshed ∷ es) = none ∷ metrics_events es
  metrics_events (metrics_checked c ∷ es) = some c ∷ metrics_events es
  metrics_events (_ ∷ es) = metrics_events es

  -- The three cards do not disturb each other: over every interleaving of refreshes and ends, each
  -- slot is what the refreshes and the ends of its own check make of it, in their order.
  system_run-slot_run :
      (es : List SystemEvent) (s : SystemState)
      → system_run es s ≡ record {
        health = slot_run (health_events es) s.health;
        ready = slot_run (ready_events es) s.ready;
        metrics = slot_run (metrics_events es) s.metrics;
      }
  unfolding system_step
  system_run-slot_run [] s = refl
  system_run-slot_run (refreshed ∷ es) s = system_run-slot_run es (system_step refreshed s)
  system_run-slot_run (health_checked c ∷ es) s =
      system_run-slot_run es (system_step (health_checked c) s)
  system_run-slot_run (ready_checked c ∷ es) s =
      system_run-slot_run es (system_step (ready_checked c) s)
  system_run-slot_run (metrics_checked c ∷ es) s =
      system_run-slot_run es (system_step (metrics_checked c) s)

  -- What a card relies on.
  pub record IsReadable {A : Type 0} (s : Slot A E) : Type 0 where
    pub success_has_value : s.status ≡ success → (is_some s.value ≡ true) × (s.failure ≡ none)
    pub error_has_failure : s.status ≡ error → (is_some s.failure ≡ true) × (s.value ≡ none)

  settle_slot-IsReadable : {A : Type 0} (c : Checked A E) → IsReadable (settle_slot c)
  unfolding settle_slot
  settle_slot-IsReadable (reached a t) = record {
    success_has_value = λ e. (refl, refl);
    error_has_failure = λ e. cc;
  }
  settle_slot-IsReadable (unreached x t) = record {
    success_has_value = λ e. cc;
    error_has_failure = λ e. (refl, refl);
  }

  reload-IsReadable : {A : Type 0} (s : Slot A E) → IsReadable (reload s)
  unfolding reload
  reload-IsReadable s = record { success_has_value = λ e. cc; error_has_failure = λ e. cc }

  slot_run-IsReadable :
      {A : Type 0} (es : List (Option (Checked A E))) (s : Slot A E)
      → IsReadable s
      → IsReadable (slot_run es s)
  slot_run-IsReadable [] s h = h
  slot_run-IsReadable (none ∷ es) s h = slot_run-IsReadable es (reload s) (reload-IsReadable s)
  slot_run-IsReadable (some c ∷ es) s h =
      slot_run-IsReadable es (settle_slot c) (settle_slot-IsReadable c)
