-- ===== src/Initiative/Ready.antt =====
-- internal/orchestratorgo/httpapi/objectives.go: queueReadyObjectiveTasks, which queues the work items of
-- an objective whose dependencies are completed, within the time budget of the objective. `parse` is
-- time.Parse with RFC3339Nano, 0 the zero time; `patch` is what objectiveQueueMetadataPatch takes from
-- the results of the dependencies. The rows of the listed tasks are there. The snapshot for the user
-- that persistObjectiveStopSnapshot writes is left out.
pub mod Laws
pub mod Dependencies
use ia_lab.Prelude.{
  ℕ, ◌+◌, ◌*◌, String, Bool, true, false, not, ◌&&◌, ◌||◌, Option, none, some, List, [], ◌∷◌, ◌++◌,
  str_eq, is_empty, is_some, trim_space, leb, ◌==◌, if◌then◌else◌,
}
use ia_lab.Prelude.Json
use ia_lab.Prelude.Json.{Json, Fields, end, field}
use ia_lab.Task.State.{TaskState, AgentType, created, completed, state_eq, is_local}
use ia_lab.Task.Model.{Task, Db, StoreError, task_not_found, Result, ok, err, get_task, Enqueued}
use ia_lab.Task.Store.{fail_task, patch_task_metadata, queue_task_for_launch}
use ia_lab.Initiative.Contracts.{as_string}
use ia_lab.Initiative.Model.{
  LinkedTask, Rows, list_initiative_tasks, reconcile_initiative_execution,
}
use ia_lab.Initiative.Objectives.{as_int, work_item_id, depends_on}

-- The entry of the map byWorkItemID: the last item with the identifier.
abbrev pub by_work_item : List LinkedTask → String → Option LinkedTask
by_work_item [] id = none
by_work_item (i ∷ items) id =
    let later = by_work_item items id in
    if is_some later
    then later
    else if not (is_empty (work_item_id i)) && str_eq (work_item_id i) id
    then some i
    else none

abbrev pub is_completed : Option LinkedTask → Bool
is_completed none = false
is_completed (some i) = state_eq i.task.state completed

abbrev pub all_completed : List LinkedTask → List String → Bool
all_completed items [] = true
all_completed items (dep ∷ deps) = is_completed (by_work_item items dep) && all_completed items deps

-- objectiveDependenciesSatisfied
unfoldable pub dependencies_satisfied : List LinkedTask → LinkedTask → Bool
dependencies_satisfied items i = all_completed items (depends_on i)

abbrev text_at : String → Fields → String
text_at key metadata = trim_space (as_string (Json.get key metadata))

abbrev plus_seconds : ℕ → Option ℕ → Option ℕ
plus_seconds n none = none
plus_seconds n (some t) = some (t + n * 1000000000)

-- objectiveTimeBudgetDetails: the deadline, if there is one.
unfoldable pub deadline_of : (String → Option ℕ) → Fields → Option ℕ
deadline_of parse metadata =
    let budget = as_int (Json.get "objective_time_budget_seconds" metadata) 0 in
    let deadline = text_at "objective_deadline_at" metadata in
    let started = text_at "objective_started_at" metadata in
    if budget == 0
    then none
    else if not (is_empty deadline)
    then parse deadline
    else if is_empty started
    then none
    else plus_seconds budget (parse started)

abbrev pub is_past : ℕ → Option ℕ → Bool
is_past now none = false
is_past now (some deadline) = not (deadline == 0) && leb deadline now

-- objectiveTimeBudgetExceeded
unfoldable pub time_budget_exceeded : (String → Option ℕ) → ℕ → Fields → Bool
time_budget_exceeded parse now metadata = is_past now (deadline_of parse metadata)

pub data ReadyError : Type 0 where
  not_enqueued : ReadyError
  refused : StoreError → ReadyError

pub record Ready : Type 0 where
  pub rows : Rows
  pub enqueued : List Enqueued
  pub failure : Option ReadyError

abbrev pub fail_ready : ReadyError → Ready → Ready
fail_ready e x = record x { failure = some e }

abbrev pub set_db : Db → Ready → Ready
set_db db x = record x { rows = record x.rows { db = db } }

abbrev pub after_failing : Result Db → Ready → Ready
after_failing (err e) x = fail_ready (refused e) x
after_failing (ok db) x = record x {
  rows = reconcile_initiative_execution (record x.rows { db = db });
}

-- What goes with a queue for objectives: clocks, texts, and the services around the store.
pub record Around : Type 0 where
  pub now : ℕ
  pub parse : String → Option ℕ
  pub patch : Task → Fields
  pub stop_patch : Fields
  pub stop_results : Json
  pub stop_reason : String
  pub redis : String → Bool

-- failObjectiveTaskDueToTimeBudget; `stop_patch`, `stop_results` and `stop_reason` are its texts.
unfoldable pub fail_due_to_time_budget : Around → Task → Ready → Ready
fail_due_to_time_budget a t x =
    if is_some t.initiative_id && is_some (deadline_of a.parse t.metadata)
    then (let patched = patch_task_metadata t.id a.stop_patch a.now x.rows.db in
        after_failing
          (fail_task t.id "objectives:auto" a.stop_reason a.stop_reason (some a.stop_results) a.now
            patched)
          (set_db patched x))
    else x

abbrev pub enqueue_remote_ready : Around → Task → Option AgentType → Ready → Ready
enqueue_remote_ready a t none x = x
enqueue_remote_ready a t (some agent) x =
    if a.redis t.id
    then record x {
      enqueued = x.enqueued ++ record { task_id = t.id; agent = agent; priority = t.priority } ∷ [];
    }
    else fail_ready not_enqueued x

abbrev pub enqueue_ready : Around → Option Task → Ready → Ready
enqueue_ready a none x = fail_ready (refused task_not_found) x
enqueue_ready a (some t) x =
    if is_local t.execution_target then x else enqueue_remote_ready a t t.assigned_agent x

abbrev pub queue_ready : Around → String → Result Db → Ready → Ready
queue_ready a k (err e) x = fail_ready (refused e) x
queue_ready a k (ok db) x = enqueue_ready a (get_task k db.tasks) (set_db db x)

abbrev pub launch_ready : Around → String → Ready → Ready
launch_ready a k x =
    queue_ready a k
      (queue_task_for_launch k "objectives:auto"
        "Queued objective work item after dependency resolution" a.now x.rows.db)
      x

abbrev pub ready_row : Around → String → Option Task → Ready → Ready
ready_row a k none x = fail_ready (refused task_not_found) x
ready_row a k (some t) x =
    if time_budget_exceeded a.parse a.now t.metadata
    then fail_due_to_time_budget a t x
    else launch_ready a k (set_db (patch_task_metadata k (a.patch t) a.now x.rows.db) x)

-- An item that the loop goes on with.
unfoldable pub is_ready_item : List LinkedTask → LinkedTask → Bool
is_ready_item items i = state_eq i.task.state created && dependencies_satisfied items i

-- The body of the loop
unfoldable pub ready_item : Around → List LinkedTask → LinkedTask → Ready → Ready
ready_item a items i x =
    if is_ready_item items i
    then ready_row a i.link.task_id (get_task i.link.task_id x.rows.db.tasks) x
    else x

abbrev pub unless_failed : Option ReadyError → Ready → Ready → Ready
unless_failed (some e) now later = now
unless_failed none now later = later

unfoldable pub ready_items : Around → List LinkedTask → List LinkedTask → Ready → Ready
ready_items a all [] x = x
ready_items a all (i ∷ items) x =
    let next = ready_item a all i x in
    let rest = ready_items a all items next in unless_failed next.failure next rest

-- queueReadyObjectiveTasks
unfoldable pub queue_ready_objective_tasks : Around → List Enqueued → Rows → Ready
queue_ready_objective_tasks a enqueued r =
    ready_items a (list_initiative_tasks r) (list_initiative_tasks r)
      (record { rows = r; enqueued = enqueued; failure = none })
