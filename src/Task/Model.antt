-- ===== src/Task/Model.antt =====
-- The rows that the task store keeps (the structs of internal/orchestratorgo/domain/types.go and
-- the columns of store/postgres.go), and its failures. A time is a number of
-- microseconds, as the columns keep it.
use ia_lab.Prelude.{ℕ, String, Bool, Option, none, some, List, [], ◌∷◌, str_eq, if◌then◌else◌}
use ia_lab.Prelude.Json.{Json, Fields}
use ia_lab.Task.State.{TaskState, AgentType, Priority, TaskKind, ExecutionTarget, ApprovalStatus}

pub record Task : Type 0 where
  pub id : String
  pub state : TaskState
  pub description : String
  pub metadata : Fields
  pub parent_task_id : Option String
  pub root_task_id : Option String
  pub task_kind : TaskKind
  pub assigned_agent : Option AgentType
  pub planned_agent : Option AgentType
  pub priority : Priority
  pub execution_target : ExecutionTarget
  pub initiative_id : Option String
  pub workspace_path : Option String
  pub retry_count : ℕ
  pub correlation_id : String
  pub results : Option Json
  pub error_message : Option String
  pub created_at : ℕ
  pub updated_at : ℕ
  pub queued_at : Option ℕ
  pub started_at : Option ℕ
  pub completed_at : Option ℕ
  pub archived_at : Option ℕ

pub record Approval : Type 0 where
  pub id : String
  pub task_id : String
  pub action_type : String
  pub target_resource : String
  pub status : ApprovalStatus
  pub operator : Option String
  pub timeout_seconds : ℕ
  pub escalation_level : ℕ
  pub requested_at : ℕ
  pub resolved_at : Option ℕ
  pub timeout_at : ℕ

-- A row of `state_transitions`, the audit log. The newest comes first.
pub record Transition : Type 0 where
  pub task_id : String
  pub from_state : TaskState
  pub to_state : TaskState
  pub actor : String
  pub reason : String
  pub timestamp : ℕ

pub record Db : Type 0 where
  pub tasks : List Task
  pub approvals : List Approval
  pub transitions : List Transition

pub data StoreError : Type 0 where
  task_not_found : StoreError
  invalid_transition : TaskState → TaskState → StoreError
  not_launchable : TaskState → StoreError
  unsupported_mode : StoreError
  approval_not_found : StoreError
  approval_already_resolved : StoreError

pub data Result {ℓ} (A : Type ℓ) : Type ℓ where
  ok : A → Result A
  err : StoreError → Result A

infixl 5 ◌>>=◌
abbrev pub ◌>>=◌ {ℓ₁ ℓ₂} :
    {Found : Type ℓ₁} {Given : Type ℓ₂} → Result Found → (Found → Result Given) → Result Given
err problem >>= next = err problem
ok found >>= next = next found

-- SELECT … FROM tasks WHERE id = $1
abbrev pub get_task : String → List Task → Option Task
get_task k [] = none
get_task k (t ∷ ts) = if str_eq t.id k then some t else get_task k ts

-- UPDATE tasks SET … WHERE id = $1
abbrev pub update_task : String → (Task → Task) → List Task → List Task
update_task k f [] = []
update_task k f (t ∷ ts) =
    let rest = update_task k f ts in if str_eq t.id k then f t ∷ rest else t ∷ rest

abbrev pub get_approval : String → List Approval → Option Approval
get_approval k [] = none
get_approval k (a ∷ l) = if str_eq a.id k then some a else get_approval k l

abbrev pub update_approval : String → (Approval → Approval) → List Approval → List Approval
update_approval k f [] = []
update_approval k f (a ∷ l) =
    let rest = update_approval k f l in if str_eq a.id k then f a ∷ rest else a ∷ rest

-- UPDATE tasks SET … WHERE <test>
abbrev pub update_where : (Task → Bool) → (Task → Task) → List Task → List Task
update_where p f [] = []
update_where p f (t ∷ ts) = let rest = update_where p f ts in if p t then f t ∷ rest else t ∷ rest

-- The rows of a query that `ORDER BY before LIMIT 1` takes: the first that no other precedes.
abbrev pub first_by : (Task → Task → Bool) → List Task → Option Task
first_by before [] = none
first_by before (t ∷ ts) = elim (first_by before ts) [
  | none ↦ some t
  | some u ↦ if before u t then some u else some t
]

-- An entry of the queues that Redis keeps.
pub record Enqueued : Type 0 where
  pub task_id : String
  pub agent : AgentType
  pub priority : Priority
