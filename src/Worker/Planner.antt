-- ===== src/Worker/Planner.antt =====
-- internal/orchestratorgo/worker/worker.go: what the worker makes of a plan, parsePlannerSubtasks and
-- handlePlannerSuccess. `redis` says whether a task can be put on its queue; the identifiers that
-- uuid.NewString gives are arguments, by the index of the subtask.
pub mod Laws
use ia_lab.Prelude.{
  ℕ, suc, ◌+◌, String, Bool, true, false, not, ◌&&◌, ◌||◌, Option, none, some, List, [], ◌∷◌, ◌++◌,
  str_eq, str_append, is_blank, is_empty, trim_space, equal_fold_ascii, if◌then◌else◌,
}
use mathlib.Core.Option
use ia_lab.Prelude.Json
use ia_lab.Prelude.Json.{Json, Items, nil, cons, Fields, end, field}
use ia_lab.Prelude.FilePath.{clean, join}
use ia_lab.Task.State.{
  TaskKind, AgentType, planner, coder, researcher, reviewer, Priority, critical, high, normal, low,
  ExecutionTarget, remote, local, queued,
}
use ia_lab.Task.Model.{Task, Db, StoreError, Result, ok, err, Enqueued}
use ia_lab.Task.Store.{update_task_state, complete_task, fail_task, update_task_results}
use ia_lab.Task.Store.Create.{CreateTaskParams, create_task}
use ia_lab.Task.Store.Approvals.{request_approval}
use ia_lab.Worker.{RuntimeWorker, actor_of, or_else, root_id_of, reconcile_root_task}

-- The texts of a subtask as given, trimmed.
pub record PlannerSubtask : Type 0 where
  pub title : String
  pub description : String
  pub assigned_agent : String
  pub priority : String
  pub execution_target : String
  pub requires_approval : Bool
  pub tool_request : Option Fields
  pub metadata : Option Fields

-- asStringMap
abbrev pub as_string_map : Fields → String → String
as_string_map m key = elim (Json.get key m) [ some (Json.str s) ↦ s | _ ↦ "" ]

-- asBoolAny
abbrev pub as_bool_any : Option Json → Bool
as_bool_any (some (Json.bool b)) = b
as_bool_any (some (Json.str s)) =
    let text = trim_space s in
    str_eq text "1"
    || equal_fold_ascii text "true"
    || equal_fold_ascii text "yes"
    || equal_fold_ascii text "on"
as_bool_any _ = false

abbrev object_of : Option Json → Option Fields
object_of (some (Json.obj m)) = some m
object_of _ = none

abbrev parse_entry : Fields → PlannerSubtask
parse_entry entry = record {
  title = trim_space (as_string_map entry "title");
  description = trim_space (as_string_map entry "description");
  assigned_agent = trim_space (as_string_map entry "assigned_agent");
  priority = trim_space (as_string_map entry "priority");
  execution_target = trim_space (as_string_map entry "execution_target");
  requires_approval = as_bool_any (Json.get "requires_approval" entry);
  tool_request = object_of (Json.get "tool_request" entry);
  metadata = object_of (Json.get "metadata" entry);
}

abbrev parse_items : Items → List PlannerSubtask
parse_items nil = []
parse_items (cons (Json.obj entry) items) = parse_entry entry ∷ parse_items items
parse_items (cons _ items) = parse_items items

-- parsePlannerSubtasks
unfoldable pub parse_planner_subtasks : Option Json → List PlannerSubtask
parse_planner_subtasks (some (Json.arr items)) = parse_items items
parse_planner_subtasks _ = []

abbrev pub agent_of : String → AgentType
agent_of text =
    if str_eq text "planner"
    then planner
    else if str_eq text "researcher"
    then researcher
    else if str_eq text "reviewer"
    then reviewer
    else coder

-- The columns hold the texts of their enumerations; the database refuses another one.
abbrev priority_of : String → Option Priority
priority_of text =
    if is_empty text
    then some normal
    else if str_eq text "critical"
    then some critical
    else if str_eq text "high"
    then some high
    else if str_eq text "normal"
    then some normal
    else if str_eq text "low"
    then some low
    else none

abbrev target_of : ExecutionTarget → String → Option ExecutionTarget
target_of own text =
    if is_empty text
    then some own
    else if str_eq text "remote"
    then some remote
    else if str_eq text "local"
    then some local
    else none

-- firstNonEmptyMetadata of one key
abbrev metadata_text : Fields → String → String
metadata_text m key = trim_space (as_string_map m key)

-- childWorkspacePath; `base` is the configured root of workspaces.
abbrev child_workspace_path : String → Task → String → Option String
child_workspace_path base t root = elim t.execution_target [
  | local ↦ none
  | remote ↦ elim (present t.workspace_path) [
    | some path ↦ some (clean (trim_space path))
    | none ↦ if is_blank base then none else some (clean (join (trim_space base) root))
  ]
]
  where
    present : Option String → Option String
    present none = none
    present (some s) = if is_blank s then none else some s

-- AllowedCapabilities of a task as JSON; a nil slice is null.
abbrev capabilities_json : List String → Json
capabilities_json [] = Json.null
capabilities_json (c ∷ cs) = Json.arr (items (c ∷ cs))
  where
    items : List String → Items
    items [] = nil
    items (s ∷ l) = cons (Json.str s) (items l)

abbrev or_nothing : Option Fields → Fields
or_nothing none = end
or_nothing (some m) = m

abbrev put_tool_request : Option Fields → Fields → Fields
put_tool_request none m = m
put_tool_request (some request) m = Json.put "tool_request" (Json.obj request) m

abbrev child_metadata : List String → Task → String → PlannerSubtask → Fields
child_metadata allowed t title spec = put_tool_request spec.tool_request (
    Json.merge
      (field "title" (Json.str title) (
        field "requires_approval" (Json.bool spec.requires_approval) (
          field "planner_generated" (Json.bool true) (
            field "parent_task_id" (Json.str t.id) (
              field "entrypoint" (Json.str (metadata_text t.metadata "entrypoint")) (
                field "workspace_root" (Json.str (metadata_text t.metadata "workspace_root"))
                  (field "allowed_capabilities" (capabilities_json allowed) end)))))))
      (or_nothing spec.metadata))

abbrev title_of : ℕ → PlannerSubtask → (ℕ → String) → String
title_of index spec decimal =
    if is_empty spec.title then str_append "Step " (decimal (index + 1)) else spec.title

-- What the worker's process adds to the rows: its clock, identifiers, queues and settings.
pub record Surroundings : Type 0 where
  pub now : ℕ
  pub child_id : ℕ → String
  pub correlation_id : ℕ → String
  pub approval_id : ℕ → String
  pub decimal : ℕ → String
  pub redis : String → Bool
  pub redis_error : String
  pub workspace_root : String
  pub allowed : List String

abbrev child_params :
    Surroundings → Task → String → PlannerSubtask → Priority → ExecutionTarget → CreateTaskParams
child_params s t title spec priority target = record {
  description = if is_empty spec.description then title else spec.description;
  metadata = child_metadata s.allowed t title spec;
  allowed_capabilities = s.allowed;
  entrypoint = metadata_text t.metadata "entrypoint";
  assigned_agent = agent_of spec.assigned_agent;
  planned_agent = none;
  priority = priority;
  execution_target = target;
  workspace_path = elim target [
    | remote ↦ child_workspace_path s.workspace_root t (root_id_of t)
    | local ↦ none
  ];
  parent_task_id = some t.id;
  root_task_id = some (root_id_of t);
  task_kind = some TaskKind.plan_step;
  initiative_id = none;
  queue_on_create = false;
}

pub data PlanError : Type 0 where
  not_stored not_enqueued : PlanError
  refused : StoreError → PlanError

-- The rows and the queues, the children that were created, and the error that ended the plan.
pub record Planning : Type 0 where
  pub db : Db
  pub enqueued : List Enqueued
  pub created : List String
  pub failure : Option PlanError

-- A call of the store that ends the plan when it is refused.
abbrev pub store_call : Result Db → Planning → Planning
store_call (ok db) p = record p { db = db }
store_call (err e) p = record p { failure = some (refused e) }

abbrev pub queue_child : RuntimeWorker → ℕ → String → String → Planning → Planning
queue_child w now k reason p =
    store_call (update_task_state k queued (actor_of w) reason now p.db) p

abbrev pub failed_results : Json
failed_results = Json.obj (field "status" (Json.str "error") end)

-- The task goes to the queue first, and its row says so afterwards.
abbrev pub enqueue_child :
    RuntimeWorker → Surroundings → String → AgentType → Priority → Planning → Planning
enqueue_child w s k agent priority p =
    if s.redis k
    then queue_child w s.now k "Queued planner-generated subtask" (record p {
      enqueued = p.enqueued ++ record { task_id = k; agent = agent; priority = priority } ∷ [];
    })
    else record p {
      db =
          or_else
            (fail_task k (actor_of w) "queue enqueue failed" s.redis_error (some failed_results)
              s.now p.db)
            p.db;
      failure = some not_enqueued;
    }

abbrev coordination : Json
coordination = Json.obj (
    field "status" (Json.str "success") (
      field "summary" (Json.str "Planner coordination step recorded without direct execution")
        (field "coordination_only" (Json.bool true) end)))

abbrev pub is_planner : AgentType → Bool
is_planner planner = true
is_planner _ = false

-- What happens to the row of a child, by its agent, its need of approval and its target.
abbrev pub dispatch_child :
    RuntimeWorker
    → Surroundings
    → ℕ
    → String
    → PlannerSubtask
    → Priority
    → ExecutionTarget
    → Planning
    → Planning
dispatch_child w s index title spec priority target p =
    let k = s.child_id index in
    if is_planner (agent_of spec.assigned_agent)
    then store_call
        (complete_task k (actor_of w) "planner coordination step recorded without direct execution"
          (some coordination) s.now p.db)
        p
    else if spec.requires_approval
    then store_call
        (request_approval (s.approval_id index) k "planner_subtask" title 300 (actor_of w)
          "planner generated approval-gated subtask"
          (field "approval_requested" (Json.bool true) end) s.now p.db)
        p
    else elim target [
      | local ↦ queue_child w s.now k "Queued planner-generated local subtask" p
      | remote ↦ enqueue_child w s k (agent_of spec.assigned_agent) priority p
    ]

abbrev pub store_child :
    RuntimeWorker
    → Surroundings
    → Task
    → ℕ
    → PlannerSubtask
    → Option Priority
    → Option ExecutionTarget
    → Planning
    → Planning
store_child w s t index spec (some priority) (some target) p =
    let title = title_of index spec s.decimal in
    let k = s.child_id index in
    dispatch_child w s index title spec priority target (record p {
      db =
          create_task (child_params s t title spec priority target) k (s.correlation_id index) s.now
            p.db;
      created = p.created ++ k ∷ [];
    })
store_child w s t index spec _ _ p = record p { failure = some not_stored }

-- The body of the loop over the subtasks
unfoldable pub add_subtask :
    RuntimeWorker → Surroundings → Task → ℕ → PlannerSubtask → Planning → Planning
add_subtask w s t index spec p =
    store_child w s t index spec (priority_of spec.priority)
      (target_of t.execution_target spec.execution_target) p

abbrev pub unless_ended : Option PlanError → Planning → Planning → Planning
unless_ended (some e) next rest = next
unless_ended none next rest = rest

unfoldable pub add_subtasks :
    RuntimeWorker → Surroundings → Task → ℕ → List PlannerSubtask → Planning → Planning
add_subtasks w s t index [] p = p
add_subtasks w s t index (spec ∷ specs) p =
    let next = add_subtask w s t index spec p in
    let rest = add_subtasks w s t (suc index) specs next in unless_ended next.failure next rest

abbrev pub results_json : Option Fields → Json
results_json none = Json.null
results_json (some m) = Json.obj m

abbrev json_texts : List String → Items
json_texts [] = nil
json_texts (s ∷ l) = cons (Json.str s) (json_texts l)

abbrev pub finish_plan : RuntimeWorker → Surroundings → Task → Option Fields → Planning → Planning
finish_plan w s t results p = elim p.failure [
  | some e ↦ p
  | none ↦ record p {
    db = reconcile_root_task w t.id s.now (
        update_task_results t.id
          (Json.obj
            (Json.put "created_subtask_ids" (Json.arr (json_texts p.created)) (or_nothing results)))
          s.now p.db);
  }
]

abbrev pub subtasks_of : Option Fields → List PlannerSubtask
subtasks_of results = parse_planner_subtasks (Json.get "subtasks" (or_nothing results))

abbrev pub is_plan_only : Option Fields → Bool
is_plan_only results = as_bool_any (Json.get "plan_only" (or_nothing results))

abbrev pub is_no_subtask : List PlannerSubtask → Bool
is_no_subtask [] = true
is_no_subtask (spec ∷ specs) = false

abbrev pub planning : Db → List Enqueued → Planning
planning db enqueued = record { db = db; enqueued = enqueued; created = []; failure = none }

-- handlePlannerSuccess
unfoldable pub handle_planner_success :
    RuntimeWorker → Surroundings → Task → Option Fields → List Enqueued → Db → Planning
unfolding add_subtasks
handle_planner_success w s t results enqueued db =
    let stored = planning (update_task_results t.id (results_json results) s.now db) enqueued in
    if is_plan_only results || is_no_subtask (subtasks_of results)
    then store_call
        (complete_task t.id (actor_of w) "planner completed without execution subtasks"
          (some (results_json results)) s.now stored.db)
        stored
    else finish_plan w s t results (add_subtasks w s t 0 (subtasks_of results) stored)
