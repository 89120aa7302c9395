-- ===== src/Worker.antt =====
-- internal/orchestratorgo/worker/worker.go: how the embedded worker claims a task, and how the
-- outcome of subtasks reaches their root. Redis hands out a queue's next task, an argument here;
-- heartbeats and log lines are left out.
pub mod Laws
pub mod Reconcile
pub mod Planner
pub mod Run
use ia_lab.Prelude.{
  ℕ, ◌≡◌, String, Bool, true, false, not, ◌&&◌, ◌||◌, Option, none, some, List, [], ◌∷◌, str_eq,
  str_append, is_blank, is_some, trim_space, any, filter, find, if◌then◌else◌, leb,
}
use ia_lab.Prelude.Json
use ia_lab.Prelude.Json.{Json, Fields, end, field}
use ia_lab.Task.State.{
  TaskState, AgentType, queued, assigned, in_progress, completed, failed, cancelled, state_eq,
  is_local, is_terminal_state,
}
use ia_lab.Task.Model.{Task, Db, StoreError, Result, ok, err, get_task}
use ia_lab.Task.Store.{update_task_state, complete_task, fail_task, patch_task_metadata}
use ia_lab.Task.Store.Create.{agent_text, target_text}
use ia_lab.Task.Store.Recovery.{rfc3339}

pub record RuntimeWorker : Type 0 where
  pub worker_id : String
  pub current_task : Option String

abbrev pub actor_of : RuntimeWorker → String
actor_of w = str_append "worker:" w.worker_id

-- recordRecoveryCheckpoint; `extra` may overwrite the stage and the time.
unfoldable pub record_recovery_checkpoint : String → String → Fields → ℕ → Db → Db
record_recovery_checkpoint k stage extra now db =
    patch_task_metadata k
      (field "recovery_checkpoint"
        (Json.obj (
          Json.merge
            (field "stage" (Json.str (trim_space stage)) (field "updated_at" (rfc3339 now) end))
            extra))
        end)
      now db

-- Both transitions and the checkpoint of a claim; a transition that fails ends it where it is.
finish_claim : RuntimeWorker → AgentType → Task → String → ℕ → Result Db → Db → RuntimeWorker × Db
finish_claim w agent t k now (err e) before = (w, before)
finish_claim w agent t k now (ok db) before = (
  record w { current_task = some k },
  record_recovery_checkpoint k "claimed"
      (field "worker_id" (Json.str w.worker_id) (
        field "assigned_agent" (Json.str (agent_text agent))
          (field "execution_target" (Json.str (target_text t.execution_target)) end)))
      now db,
)

begin_claim : RuntimeWorker → AgentType → Task → String → ℕ → Result Db → Db → RuntimeWorker × Db
begin_claim w agent t k now (err e) before = (w, before)
begin_claim w agent t k now (ok db) before =
    finish_claim w agent t k now
      (update_task_state k in_progress (actor_of w) "Execution started in Go worker" now db) db

claim_found : RuntimeWorker → AgentType → String → ℕ → Option Task → Db → RuntimeWorker × Db
unfolding finish_claim begin_claim
claim_found w agent k now none db = (w, db)
claim_found w agent k now (some t) db =
    if not (state_eq t.state queued)
    then (w, db)
    else if is_local t.execution_target
    then (w, db)
    else begin_claim w agent t k now
        (update_task_state k assigned (actor_of w) (str_append "Dequeued for " (agent_text agent))
          now db)
        db

-- `dequeued` is what the queue of the agent type gives.
unfoldable pub try_claim_task :
    RuntimeWorker → AgentType → Option String → ℕ → Db → RuntimeWorker × Db
unfolding claim_found
try_claim_task w agent none now db = (w, db)
try_claim_task w agent (some k) now db = claim_found w agent k now (get_task k db.tasks) db

-- The identifier of the root of a task's tree.
abbrev pub root_id_of : Task → String
root_id_of t = elim t.root_task_id [
  | none ↦ t.id
  | some root ↦ if is_blank root then t.id else trim_space root
]

-- SELECT … WHERE root_task_id = $1
abbrev pub has_root : String → Task → Bool
has_root root t = elim t.root_task_id [ none ↦ false | some r ↦ str_eq r root ]

abbrev pub list_by_root : String → Db → List Task
list_by_root root db = filter (has_root root) db.tasks

abbrev pub is_lost : Task → Bool
is_lost t = state_eq t.state failed || state_eq t.state cancelled

-- `allCompleted` after the loop: a failed child does not clear it.
abbrev pub is_unfinished : Task → Bool
is_unfinished t = not (is_lost t) && not (state_eq t.state completed)

abbrev pub or_else : Result Db → Db → Db
or_else (ok db) before = db
or_else (err e) before = before

-- A map of results as an argument of type any: a nil map is written as null.
abbrev map_value : Option Json → Json
map_value none = Json.null
map_value (some v) = v

-- What the loop over the children decides for the root.
unfoldable pub settle_root : RuntimeWorker → Task → List Task → ℕ → Db → Db
settle_root w root children now db =
    if any is_lost children
    then (if is_terminal_state root.state
        then db
        else or_else
            (fail_task root.id (actor_of w) "One or more subtasks failed"
              "One or more subtasks failed" (some (map_value root.results)) now db)
            db)
    else if not (any is_unfinished children) && not (state_eq root.state completed)
    then or_else
        (complete_task root.id (actor_of w) "All subtasks completed" (some (map_value root.results))
          now db)
        db
    else db

pub settle_tree : RuntimeWorker → String → List Task → ℕ → Db → Db
settle_tree w root_id tasks now db = elim (find (λ t. str_eq t.id root_id) tasks) [
  | none ↦ db
  | some root ↦ elim (filter (λ t. not (str_eq t.id root_id)) tasks) [
    | [] ↦ db
    | child ∷ children ↦ settle_root w root (child ∷ children) now db
  ]
]

pub reconcile_found : RuntimeWorker → Option Task → ℕ → Db → Db
unfolding settle_tree
reconcile_found w none now db = db
reconcile_found w (some t) now db =
    if str_eq (root_id_of t) t.id && not (is_some t.parent_task_id)
    then db
    else settle_tree w (root_id_of t) (list_by_root (root_id_of t) db) now db

-- The rows of the tasks; the status of the initiative is that of `Initiative.Status`.
unfoldable pub reconcile_root_task : RuntimeWorker → String → ℕ → Db → Db
unfolding reconcile_found
reconcile_root_task w k now db = reconcile_found w (get_task k db.tasks) now db
