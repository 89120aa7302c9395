-- ===== src/Worker/Run.antt =====
-- internal/orchestratorgo/worker/worker.go: executeTask and releaseTask, and the order in which run asks
-- the queues. What runner.Execute makes of a task is an argument; heartbeats and log lines are left out.
pub mod Laws
pub mod Outcome
use mathlib.Core.Option
use ia_lab.Prelude.{
  ℕ, String, Bool, true, false, Option, none, some, List, [], ◌∷◌, str_eq, is_blank, trim_space,
  is_some, if◌then◌else◌,
}
use ia_lab.Prelude.Json
use ia_lab.Prelude.Json.{Json, Fields, end, field}
use ia_lab.Task.State.{AgentType, planner, researcher, coder, reviewer}
use ia_lab.Task.Model.{Task, Db, Result, ok, err, get_task, Enqueued}
use ia_lab.Task.Store.{complete_task, fail_task}
use ia_lab.Task.Store.Approvals.{request_approval}
use ia_lab.Worker.{
  RuntimeWorker, actor_of, or_else, record_recovery_checkpoint, reconcile_root_task, try_claim_task,
}
use ia_lab.Worker.Planner.{
  Surroundings, Planning, results_json, PlanError, planning, handle_planner_success, failed_results,
  is_planner,
}

-- runner.ApprovalRequest
pub record ApprovalRequest : Type 0 where
  pub action_type : String
  pub target_resource : String
  pub timeout_seconds : ℕ

-- runner.Result
pub record RunResult : Type 0 where
  pub status : String
  pub summary : String
  pub results : Option Fields
  pub error_message : String
  pub approval : Option ApprovalRequest

abbrev pub worker_field : RuntimeWorker → Fields → Fields
worker_field w rest = field "worker_id" (Json.str w.worker_id) rest

abbrev checkpoint : RuntimeWorker → String → String → String → ℕ → Db → Db
checkpoint w k stage status now db =
    record_recovery_checkpoint k stage (worker_field w (field "status" (Json.str status) end)) now
      db

abbrev pub is_for_planner : Task → Bool
is_for_planner t = elim t.assigned_agent [ none ↦ false | some agent ↦ is_planner agent ]

-- After a plan that failed, its task fails with the text of the error.
abbrev plan_outcome :
    RuntimeWorker → Surroundings → (PlanError → String) → String → Planning → Planning
plan_outcome w s text k p = elim p.failure [
  | none ↦ p
  | some e ↦ record p {
    db = or_else (fail_task k (actor_of w) (text e) (text e) (some failed_results) s.now p.db) p.db;
  }
]

abbrev pub succeed :
    RuntimeWorker
    → Surroundings
    → (PlanError → String)
    → Task
    → RunResult
    → List Enqueued
    → Db
    → Planning
succeed w s text t result enqueued db =
    if is_for_planner t
    then plan_outcome w s text t.id (handle_planner_success w s t result.results enqueued db)
    else planning
        (reconcile_root_task w t.id s.now (
          or_else
            (complete_task t.id (actor_of w) result.summary (some (results_json result.results))
              s.now db)
            db))
        enqueued

abbrev pub approval_or_default : Option ApprovalRequest → ApprovalRequest
approval_or_default none = record {
  action_type = "task_execution";
  target_resource = "task";
  timeout_seconds = 300;
}
approval_or_default (some a) = a

-- What follows the request: the task fails when it was refused.
abbrev pub asked : RuntimeWorker → ℕ → String → Task → Db → Result Db → Db
asked w now text t before (ok db) = db
asked w now text t before (err e) =
    or_else
      (fail_task t.id (actor_of w) "approval request failed" text (some failed_results) now before)
      before

-- `approval_id` and `text` are the identifier of the approval and the text of the error, if one comes.
abbrev pub ask : RuntimeWorker → ℕ → String → String → Task → RunResult → Db → Db
ask w now approval_id text t result db =
    let a = approval_or_default result.approval in
    asked w now text t db (
      request_approval approval_id t.id a.action_type a.target_resource a.timeout_seconds
        (actor_of w) result.summary (field "approval_requested" (Json.bool true) end) now db)

abbrev error_text : RunResult → String
error_text result =
    if is_blank result.error_message
    then "task execution failed"
    else trim_space result.error_message

abbrev pub lose : RuntimeWorker → ℕ → Task → RunResult → Db → Db
lose w now t result db = reconcile_root_task w t.id now (
    or_else
      (fail_task t.id (actor_of w) (error_text result) (error_text result)
        (some (results_json result.results)) now db)
      db)

-- The switch on the status of the result.
unfoldable pub conclude_task :
    RuntimeWorker
    → Surroundings
    → (PlanError → String)
    → String
    → String
    → Task
    → RunResult
    → List Enqueued
    → Db
    → Planning
conclude_task w s text approval_id refusal t result enqueued db =
    if str_eq result.status "success"
    then succeed w s text t result enqueued (checkpoint w t.id "completed" "success" s.now db)
    else if str_eq result.status "waiting_approval"
    then planning
        (ask w s.now approval_id refusal t result
          (checkpoint w t.id "waiting_approval" "waiting_approval" s.now db))
        enqueued
    else planning (lose w s.now t result (checkpoint w t.id "failed" "failed" s.now db)) enqueued

abbrev pub release : RuntimeWorker → RuntimeWorker
release w = record w { current_task = none }

abbrev pub mark_executing : RuntimeWorker → Task → ℕ → Db → Db
mark_executing w t now db = record_recovery_checkpoint t.id "executing" (worker_field w end) now db

abbrev pub execute_found :
    RuntimeWorker
    → Surroundings
    → (PlanError → String)
    → String
    → String
    → (Task → RunResult)
    → (Db → Db)
    → Option Task
    → List Enqueued
    → Db
    → RuntimeWorker × Planning
execute_found w s text approval_id refusal run meanwhile none enqueued db =
    (release w, planning db enqueued)
execute_found w s text approval_id refusal run meanwhile (some t) enqueued db = (
  release w,
  conclude_task w s text approval_id refusal t (run t) enqueued
      (meanwhile (mark_executing w t s.now db)),
)

-- executeTask. `meanwhile` is what others do to the database while the runner works on the task; the
-- transactions that follow its result are one step.
unfoldable pub execute_task :
    RuntimeWorker
    → Surroundings
    → (PlanError → String)
    → String
    → String
    → (Task → RunResult)
    → (Db → Db)
    → String
    → List Enqueued
    → Db
    → RuntimeWorker × Planning
execute_task w s text approval_id refusal run meanwhile k enqueued db =
    execute_found w s text approval_id refusal run meanwhile (get_task k db.tasks) enqueued db

-- The branch of run for the timer of polls: the queues of four agents in their order, while the worker is
-- free. `dequeue` is what each queue gives.
abbrev claim_if_free :
    AgentType → (AgentType → Option String) → ℕ → RuntimeWorker × Db → RuntimeWorker × Db
claim_if_free agent dequeue now (w, db) =
    if is_some w.current_task then (w, db) else try_claim_task w agent (dequeue agent) now db

unfoldable pub poll : (AgentType → Option String) → ℕ → RuntimeWorker × Db → RuntimeWorker × Db
poll dequeue now p = claim_if_free reviewer dequeue now (
    claim_if_free coder dequeue now
      (claim_if_free researcher dequeue now (claim_if_free planner dequeue now p)))
