-- ===== src/Secretary/Progress.antt =====
-- internal/secretary/progress.go: the tracker that tells a user, once, that an answer is late. Each
-- stretch of code under the mutex is one step, each call of the observer another, and so is the
-- return of a call of Observe, which waits for the report of a delay when there is one (`emitDone`).
pub mod Laws
pub mod Quiet
use ia_lab.Prelude.{
  ℕ, zero, suc, String, Bool, true, false, not, ◌&&◌, ◌||◌, Option, none, some, List, [], ◌∷◌, ◌++◌,
  is_blank, is_empty, str_append, trim_space, is_some, if◌then◌else◌, ◌==◌,
}
use ia_lab.Secretary.Interaction.{
  Meaning, neutral, EventKind, intent_recognized, stage_changed, lookup_started, action_recognized,
  action_started, work_delayed, completed, blocked, InteractionEvent, bounded_label,
}

pub data TimerState : Type 0 where
  unset armed stopped : TimerState

-- emitDone: nil, made by sendDelayed, and closed when the observer has heard of the delay.
pub data Channel : Type 0 where
  unmade opened shut : Channel

abbrev pub is_open : Channel → Bool
is_open opened = true
is_open _ = false

abbrev is_shut : Channel → Bool
is_shut shut = true
is_shut _ = false

pub record Tracker : Type 0 where
  pub stage : String
  pub timer : TimerState
  pub has_observer : Bool
  pub sent : Bool
  pub closed : Bool
  pub emit_done : Channel

-- A call of Observe: whether it is past the call of the observer, whether it waits for emitDone
-- (`waitForEmit`), and whether it has returned.
pub record Call : Type 0 where
  pub event : InteractionEvent
  pub passed : Bool
  pub awaits : Bool
  pub returned : Bool

-- The tracker, the stage that sendDelayed reports while it is outside the mutex, the calls of Observe
-- and what the observer has seen, the oldest first.
pub record System : Type 0 where
  pub tracker : Tracker
  pub reporting : Option String
  pub calls : List Call
  pub seen : List InteractionEvent

-- newInteractionProgressTracker
unfoldable pub new_interaction_progress_tracker : Bool → Tracker
new_interaction_progress_tracker has_observer = record {
  stage = "interpretando la consulta";
  timer = if has_observer then armed else unset;
  has_observer = has_observer;
  sent = false;
  closed = false;
  emit_done = unmade;
}

-- timer.Stop() where there is a timer
abbrev stop_timer : TimerState → TimerState
stop_timer unset = unset
stop_timer _ = stopped

abbrev pub is_final : EventKind → Bool
is_final completed = true
is_final blocked = true
is_final _ = false

-- The kinds that are not passed on to the observer.
abbrev pub is_silent : EventKind → Bool
is_silent stage_changed = true
is_silent work_delayed = true
is_silent _ = false

-- The stage after an event.
stage_after : InteractionEvent → String → String
stage_after event old = elim event.kind [
  | intent_recognized ↦ "preparando la respuesta"
  | stage_changed ↦ if is_blank event.stage then old else trim_space event.stage
  | lookup_started ↦ str_append "consultando " (bounded_label event.source)
  | action_recognized ↦ "comprobando la acción solicitada"
  | action_started ↦ str_append "ejecutando " (bounded_label event.action)
  | work_delayed ↦ trim_space event.stage
  | _ ↦ old
]

abbrev pub close : Tracker → Tracker
close p = record p { closed = true; timer = stop_timer p.timer }

abbrev pub begin_call : InteractionEvent → Tracker → Call
begin_call event p =
    if p.closed
    then record { event = event; passed = true; awaits = false; returned = true }
    else record {
      event = event;
      passed = false;
      awaits = is_final event.kind && (is_open p.emit_done || is_shut p.emit_done);
      returned = false;
    }

-- Observe under the mutex.
unfoldable pub observe : InteractionEvent → System → System
unfolding stage_after
observe event s = record s {
  tracker =
      if s.tracker.closed
      then s.tracker
      else let moved = record s.tracker { stage = stage_after event s.tracker.stage } in
        if is_final event.kind then close moved else moved;
  calls = s.calls ++ begin_call event s.tracker ∷ [];
}

-- The n-th call.
abbrev pub change : ℕ → (Call → Call) → List Call → List Call
change n f [] = []
change zero f (c ∷ cs) = f c ∷ cs
change (suc n) f (c ∷ cs) = c ∷ change n f cs

abbrev pub call_at : ℕ → List Call → Option Call
call_at n [] = none
call_at zero (c ∷ cs) = some c
call_at (suc n) (c ∷ cs) = call_at n cs

-- What a call lets the observer see.
abbrev pub told : Bool → Option Call → List InteractionEvent
told has_observer none = []
told has_observer (some c) =
    if not c.passed && not (is_silent c.event.kind) && has_observer then c.event ∷ [] else []

-- The n-th call of Observe calls the observer.
unfoldable pub pass_on : ℕ → System → System
pass_on n s = record s {
  seen = s.seen ++ told s.tracker.has_observer (call_at n s.calls);
  calls = change n (λ c. record c { passed = true }) s.calls;
}

-- A call returns when it has passed its event on and need not wait any more.
abbrev pub may_return : Channel → Call → Bool
may_return done c = c.passed && (not c.awaits || is_shut done)

unfoldable pub return_call : ℕ → System → System
return_call n s = record s {
  calls =
      change n (λ c. if may_return s.tracker.emit_done c then record c { returned = true } else c)
        s.calls;
}

-- sendDelayed under the mutex, when the timer fires.
unfoldable pub begin_delayed : System → System
begin_delayed s =
    if s.tracker.closed || s.tracker.sent || not s.tracker.has_observer || is_empty s.tracker.stage
    then s
    else record s {
      tracker = record s.tracker { sent = true; emit_done = opened };
      reporting = some s.tracker.stage;
    }

abbrev pub delay_event : String → InteractionEvent
delay_event stage = record {
  kind = work_delayed;
  meaning = neutral;
  source = "";
  action = "";
  stage = stage;
}

-- The call of the observer, and the channel closed behind it.
unfoldable pub finish_delayed : System → System
finish_delayed s = elim s.reporting [
  | none ↦ s
  | some stage ↦ record s {
    tracker = record s.tracker { emit_done = shut };
    reporting = none;
    seen = s.seen ++ delay_event stage ∷ [];
  }
]

-- Close under the mutex.
unfoldable pub close_tracker : System → System
close_tracker s = record s { tracker = close s.tracker }
