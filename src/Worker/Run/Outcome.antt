-- ===== src/Worker/Run/Outcome.antt =====
-- executeTask on a running task.
use mathlib.Core.Option
use ia_lab.Prelude.{
  ℕ, ◌≡◌, ◌≢◌, refl, sym, ap, subst, ◌∙◌, String, true, false, Option, none, some, List, arith,
  Bool-cases, Option-cases, inl, inr, if◌then◌else◌, str_eq,
}
use ia_lab.Prelude.Json
use ia_lab.Prelude.Json.{Fields, Json, field, end}
use ia_lab.Task.State.{
  TaskState, in_progress, waiting_approval, completed, failed, is_terminal_state,
  is_valid_transition,
}
use ia_lab.Task.Model.{Task, Db, get_task, Enqueued, Result, ok, err, StoreError}
use ia_lab.Task.Laws.Results.{check-eq-ok, load_task-eq-ok, ok_injective}
use ia_lab.Task.Store.{
  finalize_task, complete_task, fail_task, stamp_transition, transition_task_state_tx,
}
use ia_lab.Task.Store.Approvals.{request_approval, set_metadata}
use ia_lab.Task.Laws.Rows.{get_task-update_task_self, id-get_task}
use ia_lab.Worker.{
  RuntimeWorker, or_else, actor_of, reconcile_root_task, record_recovery_checkpoint,
}
use ia_lab.Worker.Laws.{or_else-finalize, state-record_recovery_checkpoint}
use ia_lab.Worker.Planner.{Surroundings, PlanError}
use ia_lab.Worker.Run.{
  RunResult, mark_executing, asked, approval_or_default, is_for_planner, succeed, ask, lose,
  conclude_task, execute_task,
}
use ia_lab.Worker.Run.Laws.{reconcile_root_task-terminal}

-- The state of a row.
abbrev pub state_in : String → Db → Option TaskState
state_in k db = Option.map (λ u. u.state) (get_task k db.tasks)

-- The state in which a task ends, by the status of its result.
abbrev pub outcome_state : String → TaskState
outcome_state status =
    if str_eq status "success"
    then completed
    else if str_eq status "waiting_approval"
    then waiting_approval
    else failed

row_of :
    (k : String) (s : TaskState) (db : Db)
    → state_in k db ≡ some s
    → (t : Task) × ((get_task k db.tasks ≡ some t) × (t.state ≡ s))
row_of k s db e = elim (Option-cases (get_task k db.tasks)) [
  | inl absent ↦ cc (rw absent at e)
  | inr (t, there) ↦ (t, (there, ground arith))
]

state_in-checkpoint :
    (k stage : String) (extra : Fields) (now : ℕ) (s : TaskState) (db : Db)
    → state_in k db ≡ some s
    → state_in k (record_recovery_checkpoint k stage extra now db) ≡ some s
state_in-checkpoint k stage extra now s db e =
    let (t, (there, same)) = row_of k s db e in
    state-record_recovery_checkpoint k stage extra now db t there ∙ ap some same

state_in-finalize :
    (k : String) (target : TaskState) (actor reason : String) (results : Option Json)
    (error : Option String) (now : ℕ) (db : Db)
    → is_valid_transition in_progress target ≡ true
    → state_in k db ≡ some in_progress
    → state_in k (or_else (finalize_task k target actor reason results error now db) db)
      ≡ some target
state_in-finalize k target actor reason results error now db valid e =
    let (t, (there, same)) = row_of k in_progress db e in
    or_else-finalize k target actor reason results error now db t there
      (subst (λ s. is_valid_transition s target ≡ true) (sym same) valid)

state_in-reconcile :
    (w : RuntimeWorker) (j k : String) (now : ℕ) (s : TaskState) (db : Db)
    → is_terminal_state s ≡ true
    → state_in k db ≡ some s
    → state_in k (reconcile_root_task w j now db) ≡ some s
state_in-reconcile w j k now s db ended e =
    let (t, (there, same)) = row_of k s db e in
    ap (Option.map (λ u. u.state)) (
      reconcile_root_task-terminal w j now db k t there
        (subst (λ x. is_terminal_state x ≡ true) (sym same) ended))
    ∙ ap some same

succeed-completed :
    (w : RuntimeWorker) (s : Surroundings) (text : PlanError → String) (t : Task)
    (result : RunResult) (enqueued : List Enqueued) (db : Db)
    → is_for_planner t ≡ false
    → state_in t.id db ≡ some in_progress
    → state_in t.id (succeed w s text t result enqueued db).db ≡ some completed
unfolding complete_task is_valid_transition is_terminal_state
succeed-completed w s text t result enqueued db other running = rw other (
    state_in-reconcile w t.id t.id s.now completed _ refl
      (state_in-finalize t.id completed (actor_of w) _ _ none s.now db refl running))

lose-failed :
    (w : RuntimeWorker) (now : ℕ) (t : Task) (result : RunResult) (db : Db)
    → state_in t.id db ≡ some in_progress
    → state_in t.id (lose w now t result db) ≡ some failed
unfolding fail_task is_valid_transition is_terminal_state
lose-failed w now t result db running =
    state_in-reconcile w t.id t.id now failed _ refl
      (state_in-finalize t.id failed (actor_of w) _ _ _ now db refl running)

request_approval-state :
    (approval_id k action_type resource : String) (timeout : ℕ) (actor reason : String)
    (patch : Fields) (now : ℕ) (db db' : Db)
    → state_in k db ≡ some in_progress
    → request_approval approval_id k action_type resource timeout actor reason patch now db ≡ ok db'
    → state_in k db' ≡ some waiting_approval
unfolding request_approval transition_task_state_tx stamp_transition
request_approval-state approval_id k action_type resource timeout actor reason patch now db db'
      running e =
    let (t, found, e1) = load_task-eq-ok k db _ e in
    let (_, e2) = check-eq-ok _ _ _ e1 in
    ap (state_in k) (sym (ok_injective e2))
    ∙ ap (Option.map (λ u. u.state)) (
        get_task-update_task_self k (stamp_transition waiting_approval now) _ (λ u. refl)
        ∙ ap (Option.map (stamp_transition waiting_approval now)) (
            get_task-update_task_self k (set_metadata (Json.merge t.metadata patch)) db.tasks
              (λ u. refl)
            ∙ ap (Option.map (set_metadata (Json.merge t.metadata patch))) found))

request_approval-accepted :
    (approval_id k action_type resource : String) (timeout : ℕ) (actor reason : String)
    (patch : Fields) (now : ℕ) (db : Db) (e : StoreError)
    → state_in k db ≡ some in_progress
    → request_approval approval_id k action_type resource timeout actor reason patch now db ≢ err e
unfolding request_approval is_valid_transition
request_approval-accepted approval_id k action_type resource timeout actor reason patch now db e
      running refused =
    let (t, (there, same)) = row_of k in_progress db running in cc (rw (there, same) at refused)

ask-waiting :
    (w : RuntimeWorker) (now : ℕ) (approval_id text : String) (t : Task) (result : RunResult)
    (db : Db)
    → state_in t.id db ≡ some in_progress
    → state_in t.id (ask w now approval_id text t result db) ≡ some waiting_approval
ask-waiting w now approval_id text t result db running = by_result _ refl
  where
    by_result :
        (res : Result Db)
        → request_approval approval_id t.id
            (approval_or_default result.approval).action_type
            (approval_or_default result.approval).target_resource
            (approval_or_default result.approval).timeout_seconds
            (actor_of w)
            result.summary
            (field "approval_requested" (Json.bool true) end)
            now
            db
          ≡ res
        → state_in t.id (asked w now text t db res) ≡ some waiting_approval
    by_result (ok db') e = request_approval-state _ _ _ _ _ _ _ _ now db db' running e
    by_result (err x) e = elim (request_approval-accepted _ _ _ _ _ _ _ _ now db x running e) [ ]

conclude_task-state :
    (w : RuntimeWorker) (s : Surroundings) (text : PlanError → String)
    (approval_id refusal : String) (t : Task) (result : RunResult) (enqueued : List Enqueued)
    (db : Db)
    → is_for_planner t ≡ false
    → state_in t.id db ≡ some in_progress
    → state_in t.id (conclude_task w s text approval_id refusal t result enqueued db).db
      ≡ some (outcome_state result.status)
unfolding conclude_task
conclude_task-state w s text approval_id refusal t result enqueued db other running =
    elim (Bool-cases (str_eq result.status "success")) [
      | inl success ↦ rw success (
          succeed-completed w s text t result enqueued _ other
            (state_in-checkpoint t.id _ _ s.now _ db running))
      | inr not_success ↦ elim (Bool-cases (str_eq result.status "waiting_approval")) [
        | inl waits ↦
            rw (not_success, waits)
              (ask-waiting w s.now approval_id refusal t result _
                (state_in-checkpoint t.id _ _ s.now _ db running))
        | inr lost ↦
            rw (not_success, lost)
              (lose-failed w s.now t result _ (state_in-checkpoint t.id _ _ s.now _ db running))
      ]
    ]

-- When a task that is not for the planner is still in progress after its run, whatever others
-- did to the database meanwhile, and the transactions that follow the result are not
-- interrupted, the worker is free in the end, and the task is completed, waits for an approval
-- or has failed, as the status of the result says.
pub execute_task-outcome :
    (w : RuntimeWorker) (s : Surroundings) (text : PlanError → String)
    (approval_id refusal : String) (run : Task → RunResult) (meanwhile : Db → Db) (k : String)
    (t : Task) (enqueued : List Enqueued) (db : Db)
    → get_task k db.tasks ≡ some t
    → is_for_planner t ≡ false
    → state_in k (meanwhile (mark_executing w t s.now db)) ≡ some in_progress
    → ((execute_task w s text approval_id refusal run meanwhile k enqueued db).0.current_task
        ≡ none)
      × (state_in k (execute_task w s text approval_id refusal run meanwhile k enqueued db).1.db
          ≡ some (outcome_state (run t).status))
unfolding execute_task
execute_task-outcome w s text approval_id refusal run meanwhile k t enqueued db there other
      running =
    let own : t.id ≡ k = id-get_task k db.tasks t there in
    let begun : Db = meanwhile (mark_executing w t s.now db) in
    let ended =
      conclude_task-state w s text approval_id refusal t (run t) enqueued begun other
        (ap (λ j. state_in j begun) own ∙ running) in
    rw there (
      refl,
      subst
          (λ j.
            state_in j (conclude_task w s text approval_id refusal t (run t) enqueued begun).db
            ≡ some (outcome_state (run t).status))
          own ended,
    )
