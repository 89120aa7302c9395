-- ===== src/Examples/Services.antt =====
-- The broker, the initiative and the secretary at concrete inputs.
use ia_lab.Prelude.{
  ◌≤◌, ◌≡◌, refl, true, false, none, some, List, [], ◌∷◌, All, ◌⊎◌, is_empty, trim_space,
  stable_sort, length,
}
use ia_lab.Task.State.{created, failed}
use ia_lab.Initiative.Status.{blocked, executing, TaskLink, derive_initiative_execution_status}
use ia_lab.Initiative.Status.Laws.{derive-eq_description}
use ia_lab.Broker.{
  candidates, evaluate_candidate, is_admitted, Resolution, resolved, not_allowed, resolve,
  list_available,
}
use ia_lab.Broker.Policy.{
  contains_string, default_policy_allows, is_denied_by_project_policy, policy_override,
  CapabilityDefinition, CapabilityCandidate, normalize_capability_alias,
}
use ia_lab.Broker.Laws.{IsAllowed, resolve-IsAllowed, resolve_best}
use ia_lab.Secretary.Timers.{Timer, missing}
use ia_lab.Secretary.Timers.Limit.{run_all_limit, run_all, active_count, Operation}
use ia_lab.Secretary.Interaction.{InteractionEvent, EventKind, neutral}
use ia_lab.Secretary.Progress.{
  System, new_interaction_progress_tracker, begin_delayed, finish_delayed, observe, pass_on,
  return_call,
}
use ia_lab.Secretary.Progress.Laws.{
  Step, event, pass, leave, fire, report, step, steps, start, delays, steps-delays_le,
}
use ia_lab.Secretary.Progress.Quiet.{has_returned, observe_final_quiet}
use ia_lab.Examples.Tasks.{task_of}

abbrev timer : Timer
timer = record {
  id = "a";
  user_id = 7;
  chat_id = 7;
  created_at = 1;
  due_at = 5;
  delivered = false;
  canceled = false;
}

abbrev session : List Operation
session = Operation.create (some "a") 7 1 60 true ∷ Operation.create none 7 2 60 true ∷ []

run_all_limit_example : active_count 7 (run_all session missing) ≤ 10
run_all_limit_example = run_all_limit session 7

abbrev finished : InteractionEvent
finished = record {
  kind = EventKind.completed;
  meaning = neutral;
  source = "";
  action = "";
  stage = "done";
}

abbrev slow : List Step
slow = fire ∷ event finished ∷ report ∷ fire ∷ pass 0 ∷ report ∷ []

steps-delays_le_example : delays (steps slow (start true)) ≤ 1
steps-delays_le_example = steps-delays_le slow true

-- The timer has fired and its report is on its way when the final event comes.
abbrev late : System
late = steps (fire ∷ []) (start true)

-- The call passes its event on, may not leave yet, and leaves after the report.
abbrev answered : System
answered = steps (pass 0 ∷ leave 0 ∷ report ∷ leave 0 ∷ []) (observe finished late)

still_running : late.tracker.closed ≡ false
unfolding steps step start new_interaction_progress_tracker begin_delayed
still_running = refl

call_returned : has_returned (length late.calls) answered.calls ≡ true
unfolding steps step start new_interaction_progress_tracker begin_delayed finish_delayed observe
    pass_on return_call
call_returned = refl

observe_final_quiet_example : delays (steps slow answered) ≡ delays answered
observe_final_quiet_example =
    observe_final_quiet (fire ∷ []) (pass 0 ∷ leave 0 ∷ report ∷ leave 0 ∷ []) slow finished true
      late answered refl refl still_running refl call_returned

abbrev item : TaskLink
item = record { execution_mode = "manual"; task = task_of "t1" created }

abbrev broken_item : TaskLink
broken_item = record { execution_mode = "agent_remote"; task = task_of "t2" failed }

derive-eq_description_example :
    derive_initiative_execution_status executing (item ∷ broken_item ∷ []) ≡ blocked
derive-eq_description_example = derive-eq_description executing item (broken_item ∷ [])

abbrev write_tool : CapabilityDefinition
write_tool = record {
  name = "filesystem.write";
  kind = "tool";
  backend_ref = "filesystem.write";
  authorized_agents = "coder" ∷ [];
  capability_tags = "filesystem" ∷ "write" ∷ [];
  risk_class = "workspace_write";
  cost_class = "low";
  latency_class = "low";
  workspace_scope_required = true;
  enabled = true;
  version = 1;
}

abbrev no_candidate : CapabilityCandidate
no_candidate = record { name = ""; score = 0; definition = write_tool; override = none }

abbrev picked : Resolution → CapabilityCandidate
picked (resolved c) = c
picked (not_allowed _) = no_candidate

abbrev by_alias : CapabilityCandidate
by_alias = picked (resolve (write_tool ∷ []) none "coder" "needs_workspace_write" [] "write_file")

resolve-IsAllowed_example :
    IsAllowed none "coder" by_alias
    × ((is_empty (normalize_capability_alias "write_file") ≡ true)
        ⊎ (by_alias.name ≡ normalize_capability_alias "write_file"))
unfolding resolve normalize_capability_alias trim_space list_available stable_sort candidates
    evaluate_candidate is_admitted contains_string default_policy_allows is_denied_by_project_policy
    policy_override
resolve-IsAllowed_example =
    resolve-IsAllowed none "coder" "needs_workspace_write" [] (write_tool ∷ []) "write_file"
      by_alias refl

abbrev by_score : CapabilityCandidate
by_score = picked (resolve (write_tool ∷ []) none "coder" "needs_workspace_write" [] "")

resolve_best_example :
    All
      (λ d. d.score ≤ by_score.score)
      (list_available (write_tool ∷ []) none "coder" "needs_workspace_write" [])
unfolding resolve normalize_capability_alias trim_space list_available stable_sort candidates
    evaluate_candidate is_admitted contains_string default_policy_allows is_denied_by_project_policy
    policy_override
resolve_best_example =
    resolve_best none "coder" "needs_workspace_write" [] (write_tool ∷ []) "" by_score refl refl
