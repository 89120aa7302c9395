-- ===== src/Secretary/Progress/Laws.antt =====
-- internal/secretary/progress.go: the tracker under all orders of its steps, and how many delays it
-- reports.
use ia_lab.Prelude.{
  ℕ, ◌+◌, ◌≤◌, ◌≡◌, refl, inl, inr, String, Bool, true, false, Option, none, some, List, [], ◌∷◌,
  ◌++◌, Option-cases, length, length-append, filter, filter-append, arith,
}
use ia_lab.Secretary.Interaction.{work_delayed, InteractionEvent}
use ia_lab.Secretary.Progress.{
  System, Call, told, call_at, pass_on, return_call, new_interaction_progress_tracker, observe,
  begin_delayed, finish_delayed, close_tracker, delay_event,
}

-- The steps, in any order that callers, timer and scheduler choose.
pub data Step : Type 0 where
  event : InteractionEvent → Step
  pass : ℕ → Step
  leave : ℕ → Step
  fire : Step
  report : Step
  shut : Step

unfoldable pub step : Step → System → System
step (event e) s = observe e s
step (pass n) s = pass_on n s
step (leave n) s = return_call n s
step fire s = begin_delayed s
step report s = finish_delayed s
step shut s = close_tracker s

unfoldable pub steps : List Step → System → System
unfolding step
steps [] s = s
steps (x ∷ xs) s = steps xs (step x s)

abbrev pub is_delay : InteractionEvent → Bool
is_delay e = elim e.kind [ work_delayed ↦ true | _ ↦ false ]

abbrev pub delays : System → ℕ
delays s = length (filter is_delay s.seen)

abbrev waiting : Option String → ℕ
waiting none = 0
waiting (some _) = 1

abbrev spent : Bool → ℕ
spent true = 1
spent false = 0

-- Every report was sent, and is either seen or on its way.
pub record IsCounted (s : System) : Type 0 where
  pub counted : delays s + waiting s.reporting ≡ spent s.tracker.sent

seen_more :
    (e : InteractionEvent) (es : List InteractionEvent)
    → length (filter is_delay (es ++ e ∷ [])) ≡ length (filter is_delay es) + spent (is_delay e)
seen_more e es =
    rw (filter-append is_delay es (e ∷ []), length-append (filter is_delay es)) (ground arith)

pub observe-delays :
    (e : InteractionEvent) (s : System)
    → (delays (observe e s) ≡ delays s)
      × ((observe e s).reporting ≡ s.reporting)
      × ((observe e s).tracker.sent ≡ s.tracker.sent)
unfolding observe
observe-delays e s = ground arith

told_no_delay : (b : Bool) (o : Option Call) → length (filter is_delay (told b o)) ≡ 0
told_no_delay b none = refl
told_no_delay b (some c) = ground arith

-- No call of Observe reports a delay.
pub pass_on-delays : (n : ℕ) (s : System) → delays (pass_on n s) ≡ delays s
unfolding pass_on
pass_on-delays n s =
    rw
      (
        filter-append is_delay s.seen (told s.tracker.has_observer (call_at n s.calls)),
        length-append (filter is_delay s.seen)
            (filter is_delay (told s.tracker.has_observer (call_at n s.calls))),
        told_no_delay s.tracker.has_observer (call_at n s.calls),
      )
      (omega arith)

begin_delayed_count :
    (s : System)
    → delays s + waiting s.reporting ≡ spent s.tracker.sent
    → delays (begin_delayed s) + waiting (begin_delayed s).reporting
      ≡ spent (begin_delayed s).tracker.sent
unfolding begin_delayed
begin_delayed_count s h = ground arith

finish_delayed_count :
    (s : System)
    → delays s + waiting s.reporting ≡ spent s.tracker.sent
    → delays (finish_delayed s) + waiting (finish_delayed s).reporting
      ≡ spent (finish_delayed s).tracker.sent
unfolding finish_delayed
finish_delayed_count s h = elim (Option-cases s.reporting) [
  | inl idle ↦ ground arith
  | inr (stage, busy) ↦ ground (arith, seen_more (delay_event stage) s.seen)
]

pass_on_count :
    (n : ℕ) (s : System)
    → delays s + waiting s.reporting ≡ spent s.tracker.sent
    → delays (pass_on n s) + waiting (pass_on n s).reporting ≡ spent (pass_on n s).tracker.sent
unfolding pass_on
pass_on_count n s h = omega (arith, pass_on-delays n s, h)

step-IsCounted : (x : Step) (s : System) → IsCounted s → IsCounted (step x s)
unfolding step
step-IsCounted (event e) s h = record { counted = ground (arith, observe-delays e s, h.counted) }
step-IsCounted (pass n) s h = record { counted = pass_on_count n s h.counted }
step-IsCounted (leave n) s h = record { counted = unfold return_call in h.counted }
step-IsCounted fire s h = record { counted = begin_delayed_count s h.counted }
step-IsCounted report s h = record { counted = finish_delayed_count s h.counted }
step-IsCounted shut s h = record { counted = unfold close_tracker in h.counted }

steps-IsCounted : (xs : List Step) (s : System) → IsCounted s → IsCounted (steps xs s)
unfolding steps
steps-IsCounted [] s h = h
steps-IsCounted (x ∷ xs) s h = steps-IsCounted xs (step x s) (step-IsCounted x s h)

unfoldable pub start : Bool → System
start has_observer = record {
  tracker = new_interaction_progress_tracker has_observer;
  reporting = none;
  calls = [];
  seen = [];
}

start-IsCounted : (b : Bool) → IsCounted (start b)
unfolding start new_interaction_progress_tracker
start-IsCounted b = record { counted = refl }

-- From a new tracker, by any steps in any order, at most one delay is reported.
pub steps-delays_le :
    (xs : List Step) (has_observer : Bool) → delays (steps xs (start has_observer)) ≤ 1
steps-delays_le xs has_observer =
    sent_le (steps xs (start has_observer))
      (steps-IsCounted xs (start has_observer) (start-IsCounted has_observer)).counted
  where
    sent_le : (s : System) → delays s + waiting s.reporting ≡ spent s.tracker.sent → delays s ≤ 1
    sent_le s h = ground arith
