-- ===== src/Examples/Workers.antt =====
-- A worker with a plan and with a task that its runner executes.
use ia_lab.Prelude.{◌≡◌, refl, true, none, some, [], ◌∷◌, String, Option, is_some}
use ia_lab.Prelude.Json.{Json, nil, cons, Fields, end, field, get}
use ia_lab.Task.State.{created, in_progress}
use ia_lab.Task.Model.{Task, Db}
use ia_lab.Worker.{RuntimeWorker, record_recovery_checkpoint}
use ia_lab.Task.Store.{patch_task_metadata}
use ia_lab.Worker.Planner.{Surroundings, PlanError, handle_planner_success, parse_planner_subtasks}
use ia_lab.Worker.Planner.Laws.{handle_planner_success-planner_step}
use ia_lab.Worker.Run.{RunResult, execute_task, mark_executing}
use ia_lab.Worker.Run.Outcome.{state_in, outcome_state, execute_task-outcome}
use ia_lab.Examples.Tasks.{task_of}
use ia_lab.Prelude.{trim_space, trim_left, trim_right}

abbrev busy : RuntimeWorker
busy = record { worker_id = "w1"; current_task = some "t1" }

abbrev around : Surroundings
around = record {
  now = 7;
  child_id = λ n. "c1";
  correlation_id = λ n. "x";
  approval_id = λ n. "a";
  decimal = λ n. "1";
  redis = λ k. true;
  redis_error = "";
  workspace_root = "/srv";
  allowed = [];
}

abbrev running_task : Task
running_task = task_of "t1" in_progress

abbrev running_db : Db
running_db = record { tasks = running_task ∷ []; approvals = []; transitions = [] }

abbrev plan_results : Option Fields
plan_results = some (
    field "subtasks"
      (Json.arr (cons (Json.obj (field "assigned_agent" (Json.str "planner") end)) nil)) end)

handle_planner_success-planner_step_example :
    is_some (handle_planner_success busy around running_task plan_results [] running_db).failure
    ≡ true
unfolding get parse_planner_subtasks trim_space trim_left trim_right
handle_planner_success-planner_step_example =
    handle_planner_success-planner_step busy around running_task plan_results [] running_db refl
      refl

abbrev text_of_error : PlanError → String
text_of_error e = "the plan failed"

abbrev succeeds : Task → RunResult
succeeds t = record {
  status = "success";
  summary = "done";
  results = none;
  error_message = "";
  approval = none;
}

-- While the runner works, somebody puts another task on the books.
abbrev meanwhile : Db → Db
meanwhile db = record db { tasks = task_of "t2" created ∷ db.tasks }

still_running :
    state_in "t1" (meanwhile (mark_executing busy running_task 7 running_db)) ≡ some in_progress
unfolding record_recovery_checkpoint patch_task_metadata
still_running = refl

execute_task-outcome_example :
    ((execute_task busy around text_of_error "a1" "no" succeeds meanwhile "t1" []
        running_db).0.current_task
      ≡ none)
    × (state_in "t1"
          (execute_task busy around text_of_error "a1" "no" succeeds meanwhile "t1" []
            running_db).1.db
        ≡ some (outcome_state (succeeds running_task).status))
execute_task-outcome_example =
    execute_task-outcome busy around text_of_error "a1" "no" succeeds meanwhile "t1" running_task []
      running_db refl refl still_running
