-- ===== src/Examples/Autonomous.antt =====
-- An autonomous run whose request does not ask for its phases to be approved.
use ia_lab.Prelude.{
  ◌≡◌, ◌≢◌, refl, true, false, not, ◌&&◌, none, [], ◌∷◌, trim_space, trim_left, trim_right,
  stable_sort, insert_sorted,
}
use ia_lab.Prelude.Json.{get, put}
use ia_lab.Prelude.FilePath.{clean, join, components, resolve, join_parts}
use ia_lab.Task.Store.{queue_task_for_launch, stamp_transition, transition_task_state_tx}
use ia_lab.Task.Store.Create.{create_task, insert_task, new_task, update_task_launch_mode}
use ia_lab.Initiative.Contracts.{
  resolve_execution_policy, allows_mode, validate_task_launch_against_policy,
}
use ia_lab.Initiative.Model.{
  plan, execution, phase_eq, create_initiative, list_initiative_tasks, update_initiative,
  reconcile_initiative_execution,
}
use ia_lab.Initiative.Phases.{materialize}
use ia_lab.Initiative.Governance.{was_approved}
use ia_lab.Initiative.Autonomous.{
  Run, Request, generate_requirements_phase, generate_design_phase, generate_plan_tasks,
  normalize_launch_mode, launch_one, launch_each, launch_generated_tasks, advance_and_launch,
}
use ia_lab.Initiative.Autonomous.Laws.{advance_and_launch-approved}
use ia_lab.Examples.Initiatives.{ids, planned, load, no_rows}

abbrev request : Request
request = record {
  auto_approve_phases = false;
  operator_id = "ana";
  load = load;
  produced = λ phase. ids;
  planned = planned ∷ [];
  now = 5;
}

abbrev fresh : Run
fresh = record {
  rows = create_initiative "i1" "/home/ana" no_rows;
  enqueued = [];
  launched = 0;
  goes_on = true;
}

abbrev ended : Run
ended = advance_and_launch "/srv/lab" none request fresh

no_review : fresh.rows.reviews ≡ []
unfolding create_initiative
no_review = refl

ended_goes_on : ended.goes_on ≡ true
unfolding advance_and_launch generate_requirements_phase generate_design_phase generate_plan_tasks
    launch_generated_tasks launch_each launch_one normalize_launch_mode create_initiative
    update_initiative materialize create_task insert_task new_task list_initiative_tasks stable_sort
    insert_sorted resolve_execution_policy allows_mode validate_task_launch_against_policy
    update_task_launch_mode queue_task_for_launch stamp_transition transition_task_state_tx
    reconcile_initiative_execution clean join components resolve join_parts trim_space trim_left
    trim_right put get
ended_goes_on = refl

ended_has_tasks : list_initiative_tasks ended.rows ≢ []
unfolding advance_and_launch generate_requirements_phase generate_design_phase generate_plan_tasks
    launch_generated_tasks launch_each launch_one normalize_launch_mode create_initiative
    update_initiative materialize create_task insert_task new_task list_initiative_tasks stable_sort
    insert_sorted resolve_execution_policy allows_mode validate_task_launch_against_policy
    update_task_launch_mode queue_task_for_launch stamp_transition transition_task_state_tx
    reconcile_initiative_execution clean join components resolve join_parts trim_space trim_left
    trim_right put get
ended_has_tasks e = cc e

advance_and_launch-approved_example :
    (ended.rows.item.current_phase ≡ execution)
    × (was_approved plan ended.rows.reviews ≡ (false && not (phase_eq execution plan)))
advance_and_launch-approved_example =
    advance_and_launch-approved "/srv/lab" none request fresh plan no_review ended_goes_on
      ended_has_tasks
