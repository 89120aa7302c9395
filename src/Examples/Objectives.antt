-- ===== src/Examples/Objectives.antt =====
-- A chain of work items behind one that a repair cycle replaces.
use ia_lab.Prelude.{
  ℕ, ◌≡◌, ◌<◌, refl, true, false, none, some, [], ◌∷◌, String, Option, is_some, All, Any, arith,
  length, stable_sort, insert_sorted, trim_space, trim_left, trim_right,
}
use ia_lab.Prelude.Json.{Json, nil, cons, end, field, get, put, merge}
use ia_lab.Task.State.{TaskState, remote, coder, created, completed, is_valid_transition}
use ia_lab.Task.Model.{Task, Result, ok}
use ia_lab.Task.Store.{
  cancel_task, queue_task_for_launch, update_task_state, patch_task_metadata,
  transition_task_state_tx, stamp_transition,
}
use ia_lab.Initiative.Status.{executing}
use ia_lab.Initiative.Model.{Rows, Link, execution, list_initiative_tasks}
use ia_lab.Initiative.Objectives.{
  Sweep, has_text, iteration_of, sweep_item, sweep_items, sweep_rounds,
  cancel_superseded_dependents,
}
use ia_lab.Initiative.Objectives.Superseded.{cancel_superseded_dependents-ends}
use ia_lab.Initiative.Objectives.Closed.{
  IsCovered, replaced_id, cancel_superseded_dependents-closed,
}
use ia_lab.Initiative.Ready.{
  Around, ready_items, ready_item, is_ready_item, dependencies_satisfied, time_budget_exceeded,
  deadline_of, queue_ready_objective_tasks,
}
use ia_lab.Initiative.Ready.Laws.{is_enqueued}
use ia_lab.Initiative.Ready.Dependencies.{IsReadyFor, queue_ready_objective_tasks-dependencies}
use ia_lab.Examples.Tasks.{task_of}

abbrev item_of : String → TaskState → String → String → Task
item_of k s own before = record (task_of k s) {
  metadata =
      field "work_item_id" (Json.str own)
        (field "depends_on" (Json.arr (cons (Json.str before) nil)) end);
}

abbrev link_of : String → ℕ → Link
link_of k order = record {
  task_id = k;
  epic = none;
  launch_group = none;
  execution_mode = "agent_local";
  launch_order = order;
}

-- c depends on b, which depends on a; the order of launch is against the dependencies.
abbrev chain : Rows
chain = record {
  item = record {
    id = "i1";
    workspace_root = "/home/ana";
    status = executing;
    current_phase = execution;
    active_requirements_artifact_id = none;
    active_design_artifact_id = none;
    active_plan_artifact_id = none;
    archived_at = none;
  };
  reviews = [];
  links = link_of "t3" 10 ∷ link_of "t2" 20 ∷ link_of "t1" 30 ∷ [];
  db = record {
    tasks =
        item_of "t1" completed "a" ""
        ∷ item_of "t2" created "b" "a"
        ∷ item_of "t3" created "c" "b"
        ∷ [];
    approvals = [];
    transitions = [];
  };
}

abbrev replaced : Task
replaced = item_of "t1" completed "a" ""

fuel_enough : length (list_initiative_tasks chain) < 4
unfolding list_initiative_tasks stable_sort insert_sorted
fuel_enough = omega arith

cancel_superseded_dependents-ends_example :
    is_some (cancel_superseded_dependents replaced "again" 9 4 chain) ≡ true
cancel_superseded_dependents-ends_example =
    cancel_superseded_dependents-ends replaced "again" 9 4 chain fuel_enough

abbrev swept : Option (Result Sweep) → Sweep
swept (some (ok s)) = s
swept _ = record { db = chain.db; superseded = []; changed = false }

abbrev final_sweep : Sweep
final_sweep = swept (cancel_superseded_dependents replaced "again" 9 4 chain)

sweep_ends : cancel_superseded_dependents replaced "again" 9 4 chain ≡ some (ok final_sweep)
unfolding cancel_superseded_dependents list_initiative_tasks stable_sort insert_sorted sweep_rounds
    sweep_items sweep_item iteration_of get put merge cancel_task update_task_state
    patch_task_metadata transition_task_state_tx stamp_transition is_valid_transition trim_space
    trim_left trim_right
sweep_ends = refl

cancel_superseded_dependents-closed_example :
    (has_text final_sweep.superseded (replaced_id replaced) ≡ true)
    × All
        (IsCovered (list_initiative_tasks chain) replaced (replaced_id replaced) final_sweep)
        (list_initiative_tasks chain)
unfolding get trim_space trim_left trim_right
cancel_superseded_dependents-closed_example =
    cancel_superseded_dependents-closed replaced "again" 9 4 chain final_sweep refl sweep_ends

-- t2 waits for t1, which is completed, and t3 for t2.
abbrev remote_item : String → TaskState → String → String → Task
remote_item k s own before = record (item_of k s own before) {
  execution_target = remote;
  assigned_agent = some coder;
}

abbrev waiting : Rows
waiting = record chain {
  db = record chain.db {
    tasks =
        item_of "t1" completed "a" ""
        ∷ remote_item "t2" created "b" "a"
        ∷ remote_item "t3" created "c" "b"
        ∷ [];
  };
}

abbrev quiet : Around
quiet = record {
  now = 9;
  parse = λ s. none;
  patch = λ t. end;
  stop_patch = end;
  stop_results = Json.null;
  stop_reason = "out of time";
  redis = λ k. true;
}

t2_is_enqueued : is_enqueued "t2" (queue_ready_objective_tasks quiet [] waiting).enqueued ≡ true
unfolding queue_ready_objective_tasks list_initiative_tasks stable_sort insert_sorted ready_items
    ready_item is_ready_item dependencies_satisfied time_budget_exceeded deadline_of get trim_space
    trim_left trim_right queue_task_for_launch transition_task_state_tx stamp_transition
    is_valid_transition update_task_state patch_task_metadata
t2_is_enqueued = refl

queue_ready_objective_tasks-dependencies_example :
    Any (IsReadyFor (list_initiative_tasks waiting) "t2") (list_initiative_tasks waiting)
queue_ready_objective_tasks-dependencies_example =
    queue_ready_objective_tasks-dependencies quiet waiting "t2" t2_is_enqueued
