-- ===== src/Secretary/Progress/Quiet.antt =====
-- internal/secretary/progress.go: after the call of Observe for a final event has returned.
use ia_lab.Prelude.{
  ℕ, zero, suc, ◌≡◌, refl, sym, subst, ◌∙◌, inl, inr, Bool, true, false, String, Option, none, some,
  List, [], ◌∷◌, ◌++◌, is_some, Option-cases, length, arith, if◌then◌else◌,
}
use ia_lab.Secretary.Interaction.{InteractionEvent}
use ia_lab.Secretary.Progress.{
  System, Tracker, Call, begin_call, Channel, is_open, call_at, change, may_return,
  new_interaction_progress_tracker, is_final, observe, pass_on, return_call, begin_delayed,
  finish_delayed, close_tracker,
}
use ia_lab.Secretary.Progress.Laws.{
  Step, event, pass, leave, fire, report, shut, step, steps, start, delays, pass_on-delays,
  observe-delays,
}

-- The n-th call is there and has a property.
abbrev At : (Call → Type 0) → ℕ → List Call → Type 0
At P n [] = ⊥
At P zero (c ∷ cs) = P c
At P (suc n) (c ∷ cs) = At P n cs

At-append : (P : Call → Type 0) (n : ℕ) (cs ds : List Call) → At P n cs → At P n (cs ++ ds)
At-append P zero (c ∷ cs) ds h = h
At-append P (suc n) (c ∷ cs) ds h = At-append P n cs ds h
At-append P n [] ds h = absurd h

At-last : (P : Call → Type 0) (cs : List Call) (c : Call) → P c → At P (length cs) (cs ++ c ∷ [])
At-last P [] c h = h
At-last P (d ∷ cs) c h = At-last P cs c h

At-map :
    (P Q : Call → Type 0) (n : ℕ) (cs : List Call)
    → ((c : Call) → P c → Q c)
    → At P n cs
    → At Q n cs
At-map P Q n [] f h = absurd h
At-map P Q zero (c ∷ cs) f h = f c h
At-map P Q (suc n) (c ∷ cs) f h = At-map P Q n cs f h

At-change :
    (P : Call → Type 0) (m n : ℕ) (f : Call → Call) (cs : List Call)
    → ((c : Call) → P c → P (f c))
    → At P n cs
    → At P n (change m f cs)
At-change P m n f [] g h = absurd h
At-change P zero zero f (c ∷ cs) g h = g c h
At-change P zero (suc n) f (c ∷ cs) g h = h
At-change P (suc m) zero f (c ∷ cs) g h = h
At-change P (suc m) (suc n) f (c ∷ cs) g h = At-change P m n f cs g h

-- A report is on its way exactly while its channel is open.
abbrev IsSound : System → Type 0
IsSound s = is_some s.reporting ≡ is_open s.tracker.emit_done

step-IsSound : (x : Step) (s : System) → IsSound s → IsSound (step x s)
unfolding step observe pass_on return_call begin_delayed finish_delayed close_tracker
step-IsSound (event e) s h = ground arith
step-IsSound (pass n) s h = h
step-IsSound (leave n) s h = h
step-IsSound fire s h = ground arith
step-IsSound report s h = elim (Option-cases s.reporting) [
  | inl idle ↦ ground arith
  | inr (stage, busy) ↦ ground arith
]
step-IsSound shut s h = h

steps-IsSound : (xs : List Step) (s : System) → IsSound s → IsSound (steps xs s)
unfolding steps
steps-IsSound [] s h = h
steps-IsSound (x ∷ xs) s h = steps-IsSound xs (step x s) (step-IsSound x s h)

start-IsSound : (b : Bool) → IsSound (start b)
unfolding start new_interaction_progress_tracker
start-IsSound b = refl

-- While the report is on its way, the call waits for it and has not returned.
abbrev Awaits : Channel → Call → Type 0
Awaits done c = (is_open done ≡ true → c.awaits ≡ true) × (c.returned ≡ true → is_open done ≡ false)

-- The n-th call has closed the tracker.
record IsClosing (n : ℕ) (s : System) : Type 0 where
  closed : s.tracker.closed ≡ true
  sound : IsSound s
  last : At (Awaits s.tracker.emit_done) n s.calls

return-Awaits :
    (done : Channel) (c : Call)
    → Awaits done c
    → Awaits done (if may_return done c then record c { returned = true } else c)
return-Awaits Channel.unmade c h = (λ e. cc e, λ e. refl)
return-Awaits Channel.shut c h = (λ e. cc e, λ e. refl)
return-Awaits Channel.opened c h =
    let waits : c.awaits ≡ true = h.0 refl in
    let stays : may_return Channel.opened c ≡ false = ground arith in rw stays h

step-last :
    (x : Step) (n : ℕ) (s : System)
    → s.tracker.closed ≡ true
    → At (Awaits s.tracker.emit_done) n s.calls
    → At (Awaits (step x s).tracker.emit_done) n (step x s).calls
unfolding step observe pass_on return_call begin_delayed finish_delayed close_tracker
step-last (event e) n s closed h = rw closed (At-append (Awaits s.tracker.emit_done) n s.calls _ h)
step-last (pass m) n s closed h = At-change (Awaits s.tracker.emit_done) m n _ s.calls (λ c w. w) h
step-last (leave m) n s closed h =
    At-change (Awaits s.tracker.emit_done) m n _ s.calls (return-Awaits s.tracker.emit_done) h
step-last fire n s closed h = rw closed h
step-last report n s closed h = elim (Option-cases s.reporting) [
  | inl idle ↦ rw idle h
  | inr (stage, busy) ↦ rw busy (
      At-map (Awaits s.tracker.emit_done) (Awaits Channel.shut) n s.calls
        (λ c w. (λ e. cc e, λ e. refl)) h)
]
step-last shut n s closed h = h

step-closed : (x : Step) (s : System) → s.tracker.closed ≡ true → (step x s).tracker.closed ≡ true
unfolding step observe pass_on return_call begin_delayed finish_delayed close_tracker
step-closed (event e) s h = ground arith
step-closed (pass n) s h = h
step-closed (leave n) s h = h
step-closed fire s h = ground arith
step-closed report s h = ground arith
step-closed shut s h = refl

steps-IsClosing : (xs : List Step) (n : ℕ) (s : System) → IsClosing n s → IsClosing n (steps xs s)
unfolding steps
steps-IsClosing [] n s h = h
steps-IsClosing (x ∷ xs) n s h = steps-IsClosing xs n (step x s) (record {
  closed = step-closed x s h.closed;
  sound = step-IsSound x s h.sound;
  last = step-last x n s h.closed h.last;
})

begin-Awaits :
    (e : InteractionEvent) (p : Tracker)
    → is_final e.kind ≡ true
    → p.closed ≡ false
    → Awaits p.emit_done (begin_call e p)
begin-Awaits e p final running = rw (running, final) (λ opened. ground arith, λ r. cc r)

observe-IsClosing :
    (e : InteractionEvent) (s : System)
    → is_final e.kind ≡ true
    → s.tracker.closed ≡ false
    → IsSound s
    → IsClosing (length s.calls) (observe e s)
unfolding observe
observe-IsClosing e s final running h = record {
  closed = ground arith;
  sound = ground arith;
  last =
      let kept : (observe e s).tracker.emit_done ≡ s.tracker.emit_done = ground arith in
      subst (λ d. At (Awaits d) (length s.calls) (observe e s).calls) (sym kept)
        (At-last (Awaits s.tracker.emit_done) s.calls _ (begin-Awaits e s.tracker final running));
}

-- Whether the n-th call has returned.
abbrev pub has_returned : ℕ → List Call → Bool
has_returned n cs = elim (call_at n cs) [ none ↦ false | some c ↦ c.returned ]

returned-shut :
    (done : Channel) (n : ℕ) (cs : List Call)
    → At (Awaits done) n cs
    → has_returned n cs ≡ true
    → is_open done ≡ false
returned-shut done n [] h r = absurd h
returned-shut done zero (c ∷ cs) h r = h.1 r
returned-shut done (suc n) (c ∷ cs) h r = returned-shut done n cs h r

-- Closed for good, with no report on its way.
abbrev IsDone : System → Type 0
IsDone s = (s.tracker.closed ≡ true) × (s.reporting ≡ none)

step-IsDone :
    (x : Step) (s : System) → IsDone s → (delays (step x s) ≡ delays s) × IsDone (step x s)
unfolding step return_call begin_delayed finish_delayed close_tracker
step-IsDone (event e) s h =
    let (same, still, _) = observe-delays e s in (same, (step-closed (event e) s h.0, still ∙ h.1))
step-IsDone (pass n) s h = (pass_on-delays n s, (step-closed (pass n) s h.0, unfold pass_on in h.1))
step-IsDone (leave n) s h = (refl, h)
step-IsDone fire s h = ground (arith, h.0, h.1)
step-IsDone report s h =
    let same : finish_delayed s ≡ s = ground (arith, h.1) in
    subst (λ x. (delays x ≡ delays s) × IsDone x) (sym same) (refl, h)
step-IsDone shut s h = (refl, (refl, h.1))

steps-IsDone : (xs : List Step) (s : System) → IsDone s → delays (steps xs s) ≡ delays s
unfolding steps
steps-IsDone [] s h = refl
steps-IsDone (x ∷ xs) s h =
    let (same, done) = step-IsDone x s h in steps-IsDone xs (step x s) done ∙ same

-- When a call of Observe for a final event begins on a tracker that is not closed, after any
-- steps from a new one, and has returned after any further steps, no later step reports a
-- delay.
pub observe_final_quiet :
    (before between later : List Step) (e : InteractionEvent) (has_observer : Bool) (s s' : System)
    → s ≡ steps before (start has_observer)
    → is_final e.kind ≡ true
    → s.tracker.closed ≡ false
    → s' ≡ steps between (observe e s)
    → has_returned (length s.calls) s'.calls ≡ true
    → delays (steps later s') ≡ delays s'
observe_final_quiet before between later e b s s' reached final running ran returned =
    let sound = subst IsSound (sym reached) (steps-IsSound before (start b) (start-IsSound b)) in
    let closing = subst (IsClosing (length s.calls)) (sym ran) (
      steps-IsClosing between (length s.calls) (observe e s)
        (observe-IsClosing e s final running sound)) in
    let over = returned-shut s'.tracker.emit_done (length s.calls) s'.calls closing.last returned in
    steps-IsDone later s' (closing.closed, nothing s'.reporting (closing.sound ∙ over))
  where
    nothing : (o : Option String) → is_some o ≡ false → o ≡ none
    nothing none h = refl
    nothing (some x) h = cc h
