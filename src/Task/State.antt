-- ===== src/Task/State.antt =====
-- internal/orchestratorgo/domain/types.go: the states of a task, the kinds of agents and targets,
-- and the table of valid transitions.
use ia_lab.Prelude.{ℕ, String, ◌≡◌, ◌↔◌, Bool, true, false, List, [], ◌∷◌, map, arith, ◌==◌, any}

pub data TaskState : Type 0 where
  created queued assigned in_progress waiting_approval review retrying completed failed cancelled :
      TaskState

pub data AgentType : Type 0 where
  planner coder reviewer infra researcher : AgentType

pub data Priority : Type 0 where
  critical high normal low : Priority

pub data TaskKind : Type 0 where
  root plan_step : TaskKind

pub data ExecutionTarget : Type 0 where
  remote local : ExecutionTarget

pub data ApprovalStatus : Type 0 where
  pending approved rejected timeout : ApprovalStatus

abbrev tag : TaskState → ℕ
tag created = 0
tag queued = 1
tag assigned = 2
tag in_progress = 3
tag waiting_approval = 4
tag review = 5
tag retrying = 6
tag completed = 7
tag failed = 8
tag cancelled = 9

-- a == b on task states
abbrev pub state_eq : TaskState → TaskState → Bool
state_eq a b = tag a == tag b

pub state_eq_iff : (a b : TaskState) → (state_eq a b ≡ true) ↔ (a ≡ b)
state_eq_iff a b = ground arith

abbrev pub is_pending : ApprovalStatus → Bool
is_pending pending = true
is_pending _ = false

abbrev pub is_local : ExecutionTarget → Bool
is_local local = true
is_local remote = false

unfoldable pub is_terminal_state : TaskState → Bool
is_terminal_state completed = true
is_terminal_state failed = true
is_terminal_state cancelled = true
is_terminal_state _ = false

-- The map `validTransitions`; a state that is no key has no candidates.
unfoldable pub valid_transitions : TaskState → List TaskState
valid_transitions created = queued ∷ waiting_approval ∷ cancelled ∷ []
valid_transitions queued = assigned ∷ cancelled ∷ []
valid_transitions assigned = in_progress ∷ failed ∷ cancelled ∷ []
valid_transitions in_progress =
    waiting_approval ∷ review ∷ completed ∷ failed ∷ cancelled ∷ retrying ∷ []
valid_transitions waiting_approval = in_progress ∷ queued ∷ cancelled ∷ failed ∷ []
valid_transitions retrying = in_progress ∷ failed ∷ cancelled ∷ []
valid_transitions review = completed ∷ in_progress ∷ failed ∷ []
valid_transitions _ = []

-- The loop over the candidates of the current state.
unfoldable pub is_valid_transition : TaskState → TaskState → Bool
unfolding valid_transitions
is_valid_transition current target =
    any (λ candidate. state_eq candidate target) (valid_transitions current)

-- The text of a state, as the API and the audit log spell it.
unfoldable pub state_text : TaskState → String
state_text created = "created"
state_text queued = "queued"
state_text assigned = "assigned"
state_text in_progress = "in_progress"
state_text waiting_approval = "waiting_approval"
state_text review = "review"
state_text retrying = "retrying"
state_text completed = "completed"
state_text failed = "failed"
state_text cancelled = "cancelled"

unfoldable pub valid_transition_strings : TaskState → List String
unfolding valid_transitions state_text
valid_transition_strings s = map state_text (valid_transitions s)
