-- ===== src/Initiative/Launch.antt =====
-- internal/orchestratorgo/httpapi/initiatives.go: launchInitiativeTasks, updateInitiativeTaskMode and
-- selectInitiativeTasks. `redis` says whether a task can be put on its queue.
pub mod Laws
use ia_lab.Prelude.{
  ℕ, String, Bool, true, false, not, ◌&&◌, ◌||◌, Option, none, some, List, [], ◌∷◌, ◌++◌, any,
  filter, find, is_blank, is_some, str_eq, trim_space, if◌then◌else◌,
}
use ia_lab.Task.State.{AgentType, Priority, is_local}
use ia_lab.Task.Model.{Enqueued, Task, Db, Result, ok, err, get_task}
use ia_lab.Task.Store.{queue_task_for_launch}
use ia_lab.Task.Store.Create.{update_task_launch_mode}
use ia_lab.Initiative.Status.{InitiativeStatus, execution_ready, executing, blocked}
use ia_lab.Initiative.Contracts.{
  ExecutionPolicy, resolve_execution_policy, is_recognized_task_launch_mode,
  validate_task_launch_against_policy, is_nothing,
}
use ia_lab.Initiative.Model.{
  Link, LinkedTask, Rows, Initiative, list_initiative_tasks, reconcile_initiative_execution,
  update_links,
}
use ia_lab.Initiative.Phases.{Response, done, refused, first_non_empty}

-- The texts that are not blank, trimmed.
abbrev trimmed : List String → List String
trimmed [] = []
trimmed (s ∷ ss) = let rest = trimmed ss in if is_blank s then rest else trim_space s ∷ rest

abbrev text_or_empty : Option String → String
text_or_empty none = ""
text_or_empty (some s) = s

abbrev has_text : List String → String → Bool
has_text texts s = any (λ t. str_eq t s) texts

-- selectInitiativeTasks
unfoldable pub select_initiative_tasks :
    List LinkedTask → List String → List String → List LinkedTask
select_initiative_tasks items task_ids groups =
    let tasks = trimmed task_ids in
    let sets = trimmed groups in
    if is_nothing tasks && is_nothing sets
    then items
    else filter
        (λ i.
          has_text tasks i.link.task_id
          || has_text sets
              (first_non_empty (text_or_empty i.link.launch_group) (text_or_empty i.link.epic)))
        items

abbrev pub is_ready : InitiativeStatus → Bool
is_ready execution_ready = true
is_ready executing = true
is_ready blocked = true
is_ready _ = false

-- The rows, what was put on queues, and how the request ended, if it did.
pub record Launching : Type 0 where
  pub rows : Rows
  pub enqueued : List Enqueued
  pub failure : Option ℕ

abbrev stop : ℕ → Launching → Launching
stop code l = record l { failure = some code }

-- A remote task goes to the queue of its agent.
abbrev pub enqueue_remote : (String → Bool) → Option Task → Launching → Launching
enqueue_remote redis none l = stop 500 l
enqueue_remote redis (some t) l = if is_local t.execution_target then l else elim t.assigned_agent [
  | none ↦ l
  | some agent ↦
      if redis t.id
      then record l {
        enqueued =
            l.enqueued ++ record { task_id = t.id; agent = agent; priority = t.priority } ∷ [];
      }
      else stop 503 l
]

abbrev pub queue_launched : (String → Bool) → String → Result Db → Launching → Launching
queue_launched redis k (err _) l = stop 500 l
queue_launched redis k (ok db) l =
    enqueue_remote redis (get_task k db.tasks) (record l { rows = record l.rows { db = db } })

abbrev pub queue_unless_manual :
    (String → Bool) → String → String → ℕ → Result Db → Launching → Launching
queue_unless_manual redis k mode now (err _) l = stop 500 l
queue_unless_manual redis k mode now (ok db) l =
    let moved = record l { rows = record l.rows { db = db } } in
    if str_eq mode "manual"
    then moved
    else queue_launched redis k
        (queue_task_for_launch k "api:initiative_launch" "Queued from initiative launch" now db)
        moved

-- The body of the loop for a task and the mode it is to be launched in.
unfoldable pub launch_task :
    ExecutionPolicy → (String → Bool) → ℕ → String → String → Launching → Launching
launch_task policy redis now k mode l =
    if not (is_recognized_task_launch_mode mode)
    then stop 400 l
    else if is_some (validate_task_launch_against_policy policy mode)
    then stop 409 l
    else (let linked = record l.rows { links = update_links k mode l.rows.links } in
        queue_unless_manual redis k mode now (update_task_launch_mode k mode now linked.db)
          (record l { rows = linked }))

abbrev pub launch_mode : (String → String) → LinkedTask → String
launch_mode overrides i =
    first_non_empty (trim_space (overrides i.link.task_id)) (trim_space i.link.execution_mode)

-- The loop; a failure ends it where it is.
unfoldable pub launch_tasks :
    ExecutionPolicy
    → (String → String)
    → (String → Bool)
    → ℕ
    → List LinkedTask
    → Launching
    → Launching
unfolding launch_task
launch_tasks policy overrides redis now [] l = l
launch_tasks policy overrides redis now (i ∷ items) l =
    let next = launch_task policy redis now i.link.task_id (launch_mode overrides i) l in
    let rest = launch_tasks policy overrides redis now items next in
    if is_some next.failure then next else rest

abbrev pub finish_launch : Launching → Launching × Response
finish_launch l = elim l.failure [
  | some code ↦ (l, refused code)
  | none ↦ (record l { rows = reconcile_initiative_execution l.rows }, done)
]

abbrev pub launching : Rows → Launching
launching r = record { rows = r; enqueued = []; failure = none }

-- launchInitiativeTasks; `root` is the workspace of the orchestrator, `overrides` gives "" for a task
-- without one.
unfoldable pub launch_initiative_tasks :
    String
    → List String
    → List String
    → (String → String)
    → (String → Bool)
    → ℕ
    → Rows
    → Launching × Response
launch_initiative_tasks root task_ids groups overrides redis now r =
    if not (is_ready r.item.status)
    then (launching r, refused 409)
    else (let selected = select_initiative_tasks (list_initiative_tasks r) task_ids groups in
        if is_nothing selected
        then (launching r, refused 400)
        else finish_launch (
            launch_tasks (resolve_execution_policy root r.item.workspace_root) overrides redis now
              selected (launching r)))

abbrev pub set_launch_mode : String → String → ℕ → Rows → Result Db → Rows × Response
set_launch_mode k mode now r (err _) =
    (record r { links = update_links k mode r.links }, refused 500)
set_launch_mode k mode now r (ok db) = (
  reconcile_initiative_execution (record r { links = update_links k mode r.links; db = db }),
  done,
)

-- updateInitiativeTaskMode
unfoldable pub update_initiative_task_mode : String → String → String → ℕ → Rows → Rows × Response
update_initiative_task_mode root k given_mode now r =
    let mode = trim_space given_mode in
    if not (is_recognized_task_launch_mode mode)
    then (r, refused 400)
    else if not (is_some (find (λ l. str_eq l.task_id k) r.links))
    then (r, refused 404)
    else if is_some (
        validate_task_launch_against_policy (resolve_execution_policy root r.item.workspace_root)
          mode)
    then (r, refused 409)
    else set_launch_mode k mode now r (update_task_launch_mode k mode now r.db)
