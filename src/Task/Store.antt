-- ===== src/Task/Store.antt =====
-- internal/orchestratorgo/store/postgres.go and initiatives.go: the operations on task rows.
-- A transaction that fails leaves the database as it was, so an operation returns the new one or
-- an error. The clock and the fresh identifiers (uuid.NewString) are arguments.
pub mod Create
pub mod Recovery
pub mod Approvals
pub mod Leases
pub mod Claims
use ia_lab.Prelude.{
  ℕ, String, ◌+◌, ◌≡◌, Bool, true, false, not, ◌&&◌, ◌||◌, Option, none, some, List, [], ◌∷◌, ◌++◌,
  is_some, is_empty, is_blank, trim_space, str_append, if◌then◌else◌, ltb,
}
use ia_lab.Prelude.Json
use ia_lab.Prelude.Json.{Json, Items, Fields, nil, cons, end, field}
use ia_lab.Prelude.FilePath.{join}
use ia_lab.Task.State.{
  TaskState, AgentType, Priority, TaskKind, ExecutionTarget, created, queued, assigned, in_progress,
  waiting_approval, retrying, completed, failed, cancelled, remote, local, state_eq, is_local,
  is_valid_transition,
}
use ia_lab.Task.Model.{
  Task, Transition, Db, StoreError, Result, ok, err, ◌>>=◌, task_not_found, invalid_transition,
  not_launchable, unsupported_mode, get_task, update_task, update_where,
}

abbrev pub require_task : Option Task → Result Task
require_task none = err task_not_found
require_task (some t) = ok t

-- GetTaskForUpdateTx, with the caller's test for a missing row
abbrev pub load_task : String → Db → Result Task
load_task k db = require_task (get_task k db.tasks)

abbrev pub check : Bool → StoreError → Result (Unit {0})
check true e = ok tt
check false e = err e

abbrev pub check_transition : TaskState → TaskState → Result (Unit {0})
check_transition from target =
    check (is_valid_transition from target) (invalid_transition from target)

-- The columns that a transition writes.
unfoldable pub stamp_transition : TaskState → ℕ → Task → Task
stamp_transition target now t = record t {
  state = target;
  updated_at = now;
  queued_at = if state_eq target queued then some now else t.queued_at;
  started_at =
      if state_eq target in_progress && not (is_some t.started_at) then some now else t.started_at;
  completed_at =
      if state_eq target completed || state_eq target failed || state_eq target cancelled
      then some now
      else t.completed_at;
}

-- The row is updated, and the audit log gets a record.
unfoldable pub transition_task_state_tx :
    String → TaskState → TaskState → String → String → ℕ → Db → Db
unfolding stamp_transition
transition_task_state_tx k from target actor reason now db = record db {
  tasks = update_task k (stamp_transition target now) db.tasks;
  transitions =
      record {
        task_id = k;
        from_state = from;
        to_state = target;
        actor = actor;
        reason = reason;
        timestamp = now;
      }
      ∷ db.transitions;
}

unfoldable pub update_task_state : String → TaskState → String → String → ℕ → Db → Result Db
update_task_state k target actor reason now db = do
  task ← load_task k db
  _ ← check_transition task.state target
  ok (transition_task_state_tx k task.state target actor reason now db)

unfoldable pub cancel_task : String → String → String → ℕ → Db → Result Db
cancel_task k actor reason now db = update_task_state k cancelled actor reason now db

-- `CASE WHEN $2 IS NULL THEN results ELSE $2 END`
abbrev pub keep_unless_given : Option Json → Option Json → Option Json
keep_unless_given none old = old
keep_unless_given (some new) old = some new

unfoldable pub set_outcome : Option Json → Option String → Task → Task
set_outcome results error t = record t {
  results = keep_unless_given results t.results;
  error_message = error;
}

unfoldable pub finalize_task :
    String → TaskState → String → String → Option Json → Option String → ℕ → Db → Result Db
unfolding set_outcome
finalize_task k target actor reason results error now db = do
  task ← load_task k db
  _ ← check_transition task.state target
  let written = record db { tasks = update_task k (set_outcome results error) db.tasks }
  ok (transition_task_state_tx k task.state target actor reason now written)

unfoldable pub complete_task : String → String → String → Option Json → ℕ → Db → Result Db
complete_task k actor reason results now db =
    finalize_task k completed actor reason results none now db

unfoldable pub fail_task : String → String → String → String → Option Json → ℕ → Db → Result Db
fail_task k actor reason message results now db =
    finalize_task k failed actor reason results (some message) now db

-- A finished or fresh task goes back to the queue; `IsValidTransition` is not asked.
abbrev is_launchable : TaskState → Bool
is_launchable s = state_eq s created || state_eq s failed || state_eq s cancelled

unfoldable pub queue_task_for_launch : String → String → String → ℕ → Db → Result Db
queue_task_for_launch k actor reason now db = do
  task ← load_task k db
  _ ← check (is_launchable task.state) (not_launchable task.state)
  ok (transition_task_state_tx k task.state queued actor reason now db)

unfoldable pub archive_task : String → ℕ → Db → Db
archive_task k now db = record db {
  tasks = update_task k (λ t. record t { archived_at = some now; updated_at = now }) db.tasks;
}

unfoldable pub unarchive_task : String → ℕ → Db → Db
unarchive_task k now db = record db {
  tasks = update_task k (λ t. record t { archived_at = none; updated_at = now }) db.tasks;
}

unfoldable pub update_task_results : String → Json → ℕ → Db → Db
update_task_results k results now db = record db {
  tasks = update_task k (λ t. record t { results = some results; updated_at = now }) db.tasks;
}

unfoldable pub patch_task_metadata : String → Fields → ℕ → Db → Db
patch_task_metadata k end now db = db
patch_task_metadata k (field key v patch) now db = record db {
  tasks =
      update_task k
        (λ t. record t { metadata = Json.merge t.metadata (field key v patch); updated_at = now })
        db.tasks;
}
