-- ===== src/Task/Laws/States.antt =====
-- The table of valid transitions: its terminal states and what can reach a completed task.
use ia_lab.Prelude.{◌≡◌, refl, sym, subst, ◌↔◌, ◌⊎◌, inl, inr, true, false, arith}
use ia_lab.Task.State.{
  TaskState, created, queued, assigned, in_progress, waiting_approval, review, retrying, completed,
  failed, cancelled, is_terminal_state, is_valid_transition,
}

-- Valid transitions lead from a state to `goal`.
pub data LeadsTo (goal : TaskState) : TaskState → Type 0 where
  here : LeadsTo goal goal
  move :
      {s : TaskState} (t : TaskState)
      → is_valid_transition s t ≡ true
      → LeadsTo goal t
      → LeadsTo goal s

-- A state is terminal exactly when no transition out of it is valid.
pub is_terminal_state-no_exit :
    (s : TaskState)
    → (is_terminal_state s ≡ true) ↔ ((t : TaskState) → is_valid_transition s t ≡ false)
unfolding is_terminal_state is_valid_transition
is_terminal_state-no_exit s = (λ h t. ground arith, λ h. ground (arith, h cancelled, h in_progress))

running_leads : LeadsTo completed in_progress
unfolding is_valid_transition
running_leads = move completed refl here

assigned_leads : LeadsTo completed assigned
unfolding is_valid_transition
assigned_leads = move in_progress refl running_leads

queued_leads : LeadsTo completed queued
unfolding is_valid_transition
queued_leads = move assigned refl assigned_leads

-- Every state that is not terminal leads to completed.
LeadsTo-completed : (s : TaskState) → is_terminal_state s ≡ false → LeadsTo completed s
unfolding is_terminal_state is_valid_transition
LeadsTo-completed created h = move queued refl queued_leads
LeadsTo-completed queued h = queued_leads
LeadsTo-completed assigned h = assigned_leads
LeadsTo-completed in_progress h = running_leads
LeadsTo-completed waiting_approval h = move in_progress refl running_leads
LeadsTo-completed review h = move completed refl here
LeadsTo-completed retrying h = move in_progress refl running_leads
LeadsTo-completed completed h = here
LeadsTo-completed failed h = absurd (ground arith)
LeadsTo-completed cancelled h = absurd (ground arith)

moved_not_terminal :
    (s t : TaskState) → is_valid_transition s t ≡ true → is_terminal_state s ≡ false
unfolding is_terminal_state is_valid_transition
moved_not_terminal s t h = ground arith

-- Valid transitions lead from a state to completed exactly when it is completed or not
-- terminal.
pub LeadsTo-completed_iff :
    (s : TaskState) → LeadsTo completed s ↔ ((s ≡ completed) ⊎ (is_terminal_state s ≡ false))
LeadsTo-completed_iff s = (from s, to s)
  where
    from : (s : TaskState) → LeadsTo completed s → (s ≡ completed) ⊎ (is_terminal_state s ≡ false)
    from s here = inl refl
    from s (move t valid later) = inr (moved_not_terminal s t valid)

    to : (s : TaskState) → (s ≡ completed) ⊎ (is_terminal_state s ≡ false) → LeadsTo completed s
    to s (inl done) = subst (LeadsTo completed) (sym done) here
    to s (inr running) = LeadsTo-completed s running
