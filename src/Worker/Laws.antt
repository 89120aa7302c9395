-- ===== src/Worker/Laws.antt =====
-- internal/orchestratorgo/worker/worker.go: tryClaimTask on a queued remote task, and what
-- reconcileRootTask decides for a root.
use ia_lab.Prelude.{
  ℕ, ◌≡◌, ◌≢◌, refl, ap, ◌∙◌, String, true, false, Option, some, List, any, arith, str_append,
  if◌then◌else◌, Bool-cases, inl, inr,
}
use mathlib.Core.Option
use ia_lab.Prelude.Json.{Json, Fields}
use ia_lab.Task.State.{
  TaskState, AgentType, queued, assigned, in_progress, review, completed, failed, state_eq,
  is_local, is_terminal_state, is_valid_transition,
}
use ia_lab.Task.Model.{Task, Db, ok, err, invalid_transition, get_task, update_task}
use ia_lab.Task.Store.{
  stamp_transition, transition_task_state_tx, update_task_state, finalize_task, complete_task,
  fail_task, set_outcome, patch_task_metadata,
}
use ia_lab.Task.Store.Create.{agent_text}
use ia_lab.Task.Laws.Rows.{get_task-update_task_self, state-update_task_self}
use ia_lab.Worker.{
  RuntimeWorker, is_lost, is_unfinished, actor_of, or_else, settle_root, try_claim_task,
  record_recovery_checkpoint,
}

-- Completing a task that is neither in progress nor in review is refused with the two states.
pub complete_task-invalid :
    (k actor reason : String) (results : Option Json) (now : ℕ) (db : Db) (t : Task)
    → get_task k db.tasks ≡ some t
    → t.state ≢ in_progress
    → t.state ≢ review
    → complete_task k actor reason results now db ≡ err (invalid_transition t.state completed)
unfolding complete_task finalize_task is_valid_transition
complete_task-invalid k actor reason results now db t there not_running not_reviewed =
    rw there (ground arith)

-- The row that a finalised task leaves.
abbrev pub final_row : TaskState → Option Json → Option String → ℕ → Task → Task
final_row target results error now t = stamp_transition target now (set_outcome results error t)

final_db : String → TaskState → String → String → Option Json → Option String → ℕ → Task → Db → Db
final_db k target actor reason results error now t db =
    transition_task_state_tx k t.state target actor reason now
      (record db { tasks = update_task k (set_outcome results error) db.tasks })

finalize_task-eq_final :
    (k : String) (target : TaskState) (actor reason : String) (results : Option Json)
    (error : Option String) (now : ℕ) (db : Db) (t : Task)
    → get_task k db.tasks ≡ some t
    → is_valid_transition t.state target ≡ true
    → finalize_task k target actor reason results error now db
      ≡ ok (final_db k target actor reason results error now t db)
unfolding finalize_task final_db
finalize_task-eq_final k target actor reason results error now db t there valid = rw (there, valid)

get_task-final_db :
    (k : String) (target : TaskState) (actor reason : String) (results : Option Json)
    (error : Option String) (now : ℕ) (db : Db) (t : Task)
    → get_task k db.tasks ≡ some t
    → get_task k (final_db k target actor reason results error now t db).tasks
      ≡ some (final_row target results error now t)
unfolding final_db transition_task_state_tx stamp_transition set_outcome
get_task-final_db k target actor reason results error now db t there =
    get_task-update_task_self k (stamp_transition target now) _ (λ u. refl)
    ∙ ap (Option.map (stamp_transition target now)) (
        get_task-update_task_self k (set_outcome results error) db.tasks (λ u. refl)
        ∙ ap (Option.map (set_outcome results error)) there)

pub or_else-finalize :
    (k : String) (target : TaskState) (actor reason : String) (results : Option Json)
    (error : Option String) (now : ℕ) (db : Db) (t : Task)
    → get_task k db.tasks ≡ some t
    → is_valid_transition t.state target ≡ true
    → Option.map
        (λ u. u.state)
        (get_task k (or_else (finalize_task k target actor reason results error now db) db).tasks)
      ≡ some target
unfolding stamp_transition set_outcome
or_else-finalize k target actor reason results error now db t there valid =
    rw (finalize_task-eq_final k target actor reason results error now db t there valid) (
      ap (Option.map (λ u. u.state))
        (get_task-final_db k target actor reason results error now db t there))

running_can :
    (target : TaskState) (s : TaskState)
    → s ≡ in_progress
    → is_valid_transition in_progress target ≡ true
    → is_valid_transition s target ≡ true
running_can target s e h = rw e h

failure_valid : is_valid_transition in_progress failed ≡ true
unfolding is_valid_transition
failure_valid = refl

completion_valid : is_valid_transition in_progress completed ≡ true
unfolding is_valid_transition
completion_valid = refl

not_terminal : (s : TaskState) → s ≡ in_progress → is_terminal_state s ≡ false
unfolding is_terminal_state
not_terminal s e = rw e

not_completed : (s : TaskState) → s ≡ in_progress → state_eq s completed ≡ false
not_completed s e = rw e

-- Settling a root that is in progress fails it when a child is lost, leaves it while one is
-- unfinished and completes it when all are completed.
pub settle_root_state :
    (w : RuntimeWorker) (root : Task) (children : List Task) (now : ℕ) (db : Db)
    → get_task root.id db.tasks ≡ some root
    → root.state ≡ in_progress
    → Option.map (λ u. u.state) (get_task root.id (settle_root w root children now db).tasks)
      ≡ some (
          if any is_lost children
          then failed
          else if any is_unfinished children
          then in_progress
          else completed)
unfolding settle_root fail_task complete_task
settle_root_state w root children now db there running = elim (Bool-cases (any is_lost children)) [
  | inl lost ↦
      rw (lost, not_terminal root.state running)
        (or_else-finalize root.id failed _ _ _ _ now db root there
          (running_can failed root.state running failure_valid))
  | inr kept ↦ elim (Bool-cases (any is_unfinished children)) [
    | inl busy ↦ rw (kept, busy) (ap (Option.map (λ u. u.state)) there ∙ ap some running)
    | inr idle ↦
        rw (kept, idle, not_completed root.state running)
          (or_else-finalize root.id completed _ _ _ _ now db root there
            (running_can completed root.state running completion_valid))
  ]
]

moved_db : String → TaskState → String → String → ℕ → Task → Db → Db
moved_db k target actor reason now t db =
    transition_task_state_tx k t.state target actor reason now db

update_task_state-eq_moved :
    (k : String) (target : TaskState) (actor reason : String) (now : ℕ) (db : Db) (t : Task)
    → get_task k db.tasks ≡ some t
    → is_valid_transition t.state target ≡ true
    → update_task_state k target actor reason now db ≡ ok (moved_db k target actor reason now t db)
unfolding update_task_state moved_db
update_task_state-eq_moved k target actor reason now db t there valid = rw (there, valid)

get_task-moved_db :
    (k : String) (target : TaskState) (actor reason : String) (now : ℕ) (db : Db) (t : Task)
    → get_task k db.tasks ≡ some t
    → get_task k (moved_db k target actor reason now t db).tasks
      ≡ some (stamp_transition target now t)
unfolding moved_db transition_task_state_tx stamp_transition
get_task-moved_db k target actor reason now db t there =
    get_task-update_task_self k (stamp_transition target now) db.tasks (λ u. refl)
    ∙ ap (Option.map (stamp_transition target now)) there

pub state-record_recovery_checkpoint :
    (k stage : String) (extra : Fields) (now : ℕ) (db : Db) (t : Task)
    → get_task k db.tasks ≡ some t
    → Option.map (λ u. u.state) (get_task k (record_recovery_checkpoint k stage extra now db).tasks)
      ≡ some t.state
unfolding record_recovery_checkpoint patch_task_metadata
state-record_recovery_checkpoint k stage extra now db t there =
    state-update_task_self k _ db.tasks t (λ u. refl) (λ u. refl) there

state-stamp_transition :
    (target : TaskState) (now : ℕ) (t : Task) → (stamp_transition target now t).state ≡ target
unfolding stamp_transition
state-stamp_transition target now t = refl

queued_valid : (s : TaskState) → s ≡ queued → is_valid_transition s assigned ≡ true
unfolding is_valid_transition
queued_valid s e = rw e

assigned_valid : (s : TaskState) → s ≡ assigned → is_valid_transition s in_progress ≡ true
unfolding is_valid_transition
assigned_valid s e = rw e

-- A dequeued task that is queued and remote is taken by the worker and running afterwards.
pub try_claim_task_takes :
    (w : RuntimeWorker) (agent : AgentType) (k : String) (now : ℕ) (db : Db) (t : Task)
    → get_task k db.tasks ≡ some t
    → t.state ≡ queued
    → is_local t.execution_target ≡ false
    → let (w', db') = try_claim_task w agent (some k) now db in
      (w'.current_task ≡ some k)
      × (Option.map (λ u. u.state) (get_task k db'.tasks) ≡ some in_progress)
unfolding try_claim_task
try_claim_task_takes w agent k now db t there waits remote =
    let first =
      moved_db k assigned (actor_of w) (str_append "Dequeued for " (agent_text agent)) now t db in
    let row = stamp_transition assigned now t in
    let found : get_task k first.tasks ≡ some row =
      get_task-moved_db k assigned _ _ now db t there in
    rw
      (
        there,
        ap (λ s. state_eq s queued) waits,
        remote,
        update_task_state-eq_moved k assigned (actor_of w)
            (str_append "Dequeued for " (agent_text agent)) now db t there
            (queued_valid t.state waits),
        update_task_state-eq_moved k in_progress (actor_of w) "Execution started in Go worker" now
            first row found (assigned_valid row.state (state-stamp_transition assigned now t)),
      )
      (
        refl,
        state-record_recovery_checkpoint k "claimed" _ now _ (stamp_transition in_progress now row)
              (get_task-moved_db k in_progress _ _ now first row found)
            ∙ ap some (state-stamp_transition in_progress now row),
      )
