-- ===== src/Task/Store/Recovery.antt =====
-- RequeueRecoverableRemoteTasks (store/postgres.go): one bulk update at the start of a worker.
use ia_lab.Prelude.{
  ℕ, ◌+◌, ◌*◌, ◌/◌, String, Bool, not, ◌&&◌, ◌||◌, none, some, List, [], ◌∷◌, is_some, ltb,
  if◌then◌else◌,
}
use ia_lab.Prelude.Json
use ia_lab.Prelude.Json.{Json, Fields, end, field}
use ia_lab.Task.State.{TaskState, assigned, in_progress, retrying, queued, state_eq, is_local}
use ia_lab.Task.Model.{Task, Db, update_where}

-- `state IN ('assigned', 'in_progress', 'retrying')`
abbrev pub is_running : TaskState → Bool
is_running s = state_eq s assigned || state_eq s in_progress || state_eq s retrying

unfoldable pub is_recoverable : ℕ → Task → Bool
is_recoverable cutoff t =
    not (is_local t.execution_target)
    && not (is_some t.archived_at)
    && is_running t.state
    && ltb t.updated_at cutoff

-- `time.Format(time.RFC3339)` keeps whole seconds.
abbrev pub rfc3339 : ℕ → Json
rfc3339 now = Json.stamp (now / 1000000 * 1000000)

unfoldable pub requeue_interrupted : String → ℕ → Task → Task
requeue_interrupted actor now t = record t {
  state = queued;
  retry_count = t.retry_count + 1;
  error_message = none;
  queued_at = some now;
  updated_at = now;
  metadata =
      Json.put "recovery_checkpoint"
        (Json.concat (Json.get "recovery_checkpoint" t.metadata) (
          field "last_requeue_at" (Json.stamp now) (
            field "recovery_actor" (Json.str actor)
              (field "recovery_stage" (Json.str "requeued_after_interruption") end))))
        t.metadata;
}

abbrev ids_where : (Task → Bool) → List Task → List String
ids_where p [] = []
ids_where p (t ∷ ts) = let rest = ids_where p ts in if p t then t.id ∷ rest else rest

-- The new database and the identifiers that RETURNING gives.
unfoldable pub requeue_recoverable_remote_tasks : ℕ → String → ℕ → Db → Db × List String
unfolding is_recoverable requeue_interrupted
requeue_recoverable_remote_tasks cutoff actor now db = (
  record db {
    tasks = update_where (is_recoverable cutoff) (requeue_interrupted actor now) db.tasks;
  },
  ids_where (is_recoverable cutoff) db.tasks,
)
