-- ===== src/Task/Store/Create.antt =====
-- CreateTask and UpdateTaskLaunchMode (store/postgres.go, store/initiatives.go).
use ia_lab.Prelude.{
  ℕ, String, Bool, Option, none, some, List, [], ◌∷◌, is_blank, trim_space, str_append, str_eq,
  if◌then◌else◌,
}
use ia_lab.Prelude.Json
use ia_lab.Prelude.Json.{Json, Items, Fields, nil, cons, end}
use ia_lab.Prelude.FilePath.{join}
use ia_lab.Task.State.{
  AgentType, Priority, TaskKind, ExecutionTarget, created, queued, remote, local, planner, coder,
  reviewer, infra, researcher,
}
use ia_lab.Task.Model.{Task, Db, Result, ok, err, unsupported_mode, update_task}
use ia_lab.Task.Store.{transition_task_state_tx}

pub record CreateTaskParams : Type 0 where
  pub description : String
  pub metadata : Fields
  pub allowed_capabilities : List String
  pub entrypoint : String
  pub assigned_agent : AgentType
  pub planned_agent : Option AgentType
  pub priority : Priority
  pub execution_target : ExecutionTarget
  pub workspace_path : Option String
  pub parent_task_id : Option String
  pub root_task_id : Option String
  pub task_kind : Option TaskKind
  pub initiative_id : Option String
  pub queue_on_create : Bool

abbrev pub agent_text : AgentType → String
agent_text planner = "planner"
agent_text coder = "coder"
agent_text reviewer = "reviewer"
agent_text infra = "infra"
agent_text researcher = "researcher"

abbrev pub target_text : ExecutionTarget → String
target_text remote = "remote"
target_text local = "local"

abbrev texts : List String → Items
texts [] = nil
texts (s ∷ l) = cons (Json.str s) (texts l)

abbrev add_capabilities : List String → Fields → Fields
add_capabilities [] m = m
add_capabilities (c ∷ cs) m = Json.put "allowed_capabilities" (Json.arr (texts (c ∷ cs))) m

-- A remote task works in a directory of its own below the given path.
abbrev effective_workspace_path : ExecutionTarget → Option String → String → Option String
effective_workspace_path remote (some path) k =
    if is_blank path then some path else some (join path k)
effective_workspace_path _ path k = path

abbrev root_or_self : Option String → String → String
root_or_self none k = k
root_or_self (some root) k = if is_blank root then k else trim_space root

abbrev non_blank : Option String → Option String
non_blank none = none
non_blank (some s) = if is_blank s then none else some s

abbrev kind_or_root : Option TaskKind → TaskKind
kind_or_root none = TaskKind.root
kind_or_root (some kind) = kind

unfoldable pub new_task : CreateTaskParams → String → String → ℕ → Task
new_task p k correlation_id now = record {
  id = k;
  state = created;
  description = p.description;
  metadata =
      add_capabilities p.allowed_capabilities
        (Json.put "entrypoint" (Json.str p.entrypoint) p.metadata);
  parent_task_id = p.parent_task_id;
  root_task_id = some (root_or_self p.root_task_id k);
  task_kind = kind_or_root p.task_kind;
  assigned_agent = some p.assigned_agent;
  planned_agent = p.planned_agent;
  priority = p.priority;
  execution_target = p.execution_target;
  initiative_id = non_blank p.initiative_id;
  workspace_path = effective_workspace_path p.execution_target p.workspace_path k;
  retry_count = 0;
  correlation_id = correlation_id;
  results = none;
  error_message = none;
  created_at = now;
  updated_at = now;
  queued_at = none;
  started_at = none;
  completed_at = none;
  archived_at = none;
}

unfoldable pub insert_task : Task → Db → Db
insert_task t db = record db { tasks = t ∷ db.tasks }

unfoldable pub create_task : CreateTaskParams → String → String → ℕ → Db → Db
create_task p k correlation_id now db =
    let inserted = insert_task (new_task p k correlation_id now) db in
    if p.queue_on_create
    then transition_task_state_tx k created queued (str_append p.entrypoint ":create")
        (str_append "Queued for " (
          str_append (agent_text p.assigned_agent)
            (str_append " via " (target_text p.execution_target))))
        now inserted
    else inserted

abbrev pub set_target : String → ExecutionTarget → ℕ → Db → Db
set_target k target now db = record db {
  tasks = update_task k (λ t. record t { execution_target = target; updated_at = now }) db.tasks;
}

-- The mode is one of three texts; "manual" keeps the target of the task.
unfoldable pub update_task_launch_mode : String → String → ℕ → Db → Result Db
update_task_launch_mode k mode now db =
    if str_eq mode "agent_local"
    then ok (set_target k local now db)
    else if str_eq mode "agent_remote"
    then ok (set_target k remote now db)
    else if str_eq mode "manual"
    then ok (record db { tasks = update_task k (λ t. record t { updated_at = now }) db.tasks })
    else err unsupported_mode
