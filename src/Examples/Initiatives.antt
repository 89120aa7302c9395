-- ===== src/Examples/Initiatives.antt =====
-- An initiative that is taken through its phases, its plan, and its launch.
use ia_lab.Prelude.{◌≡◌, ◌≢◌, ◌↔◌, refl, true, false, none, some, List, [], ◌∷◌, String, Option}
use ia_lab.Prelude.Json.{Json, nil, cons, Fields, end, field}
use ia_lab.Task.State.{coder, normal, local, created}
use ia_lab.Task.Model.{Db}
use ia_lab.Initiative.Status.{execution_ready, executing, blocked, plan_review}
use ia_lab.Initiative.Contracts.{
  validate_execution_plan_payload, resolve_execution_policy, allows_mode,
}
use ia_lab.Initiative.Contracts.Laws.{IsPlan, validate_execution_plan_payload-IsPlan}
use ia_lab.Initiative.Model.{
  Rows, Link, PhaseArtifactIds, requirements, design, plan, execution, create_initiative,
  list_initiative_tasks,
}
use ia_lab.Initiative.Phases.{PlannedTask, done}
use ia_lab.Initiative.Governance.{was_approved}
use ia_lab.Initiative.Governance.Launches.{
  Request, advance, resolve, generate, serve, serve_all, serve_all_approved,
}
use ia_lab.Initiative.Launch.{launch_initiative_tasks, update_initiative_task_mode}
use ia_lab.Initiative.Launch.Laws.{launch_local_enqueues_none, update_initiative_task_mode_moves}
use ia_lab.Prelude.{trim_space, stable_sort, insert_sorted, trim_left, trim_right}
use ia_lab.Prelude.Json.{get, put}
use ia_lab.Prelude.FilePath.{clean, join}
use ia_lab.Initiative.Phases.{
  resolve_initiative_phase, generate_initiative_tasks, advance_initiative,
  validate_phase_artifact_payload, materialize,
}
use ia_lab.Initiative.Model.{update_initiative, reconcile_initiative_execution}
use ia_lab.Initiative.Contracts.{
  validate_requirements_payload, require_keys, validate_design_payload,
  is_recognized_task_launch_mode, validate_epics, validate_plan_task, validate_plan_tasks,
  validate_task_launch_against_policy,
}
use ia_lab.Initiative.Launch.{is_ready}
use ia_lab.Initiative.Status.{derive_initiative_execution_status}
use ia_lab.Task.Store.Create.{create_task, insert_task, new_task, update_task_launch_mode}
use ia_lab.Prelude.{any}
use ia_lab.Initiative.Status.{TaskLink}
use ia_lab.Initiative.StatusHttp.{
  derive_initiative_execution_status_http, was_replaced, status_http-compared,
}
use ia_lab.Task.State.{TaskState}
use ia_lab.Examples.Tasks.{task_of}

abbrev words : Json
words = Json.arr (cons (Json.str "some words") nil)

abbrev plan_task : Fields
plan_task = field "title" (Json.str "write") (
    field "description" (Json.str "write the notes") (
      field "suggested_agent" (Json.str "coder") (
        field "execution_mode" (Json.str "agent_local") (
          field "execution_target" (Json.str "local")
            (field "definition_of_done" (Json.str "they are written") end)))))

abbrev plan_payload : Fields
plan_payload =
    field "epics"
      (Json.arr (
        cons
          (Json.obj (
            field "name" (Json.str "notes")
              (field "tasks" (Json.arr (cons (Json.obj plan_task) nil)) end)))
          nil))
      end

validate_execution_plan_payload-IsPlan_example :
    (validate_execution_plan_payload plan_payload ≡ none) ↔ IsPlan plan_payload
validate_execution_plan_payload-IsPlan_example = validate_execution_plan_payload-IsPlan plan_payload

-- A payload that satisfies the contract of every phase.
abbrev whole_payload : Fields
whole_payload = field "objective" (Json.str "notes") (
    field "scope" words (
      field "out_of_scope" words (
        field "constraints" words (
          field "risks" words (
            field "acceptance_criteria" words (
              field "open_questions" words (
                field "assumptions" words (
                  field "architecture" (Json.str "one file") (
                    field "components" words (
                      field "interfaces" words (
                        field "data_model" words (
                          field "testing_strategy" words (
                            field "technical_risks" words
                              (field "pending_decisions" words plan_payload))))))))))))))

abbrev pub ids : Option PhaseArtifactIds
ids = some (record { markdown_id = some "md"; json_id = some "json" })

abbrev pub planned : PlannedTask
planned = record {
  params = record {
    description = "write";
    metadata = end;
    allowed_capabilities = [];
    entrypoint = "api";
    assigned_agent = coder;
    planned_agent = none;
    priority = normal;
    execution_target = local;
    workspace_path = none;
    parent_task_id = none;
    root_task_id = none;
    task_kind = none;
    initiative_id = some "i1";
    queue_on_create = false;
  };
  task_id = "t1";
  correlation_id = "c1";
  epic = "notes";
  group = "g";
  mode = "agent_local";
}

abbrev pub load : String → Option Fields
load id = some whole_payload

abbrev requests : List Request
requests =
    advance load "" ids
    ∷ resolve load true "requirements" "" "ana"
    ∷ advance load "" ids
    ∷ resolve load true "design" "fine" "ana"
    ∷ generate load "" ids (planned ∷ []) 5
    ∷ resolve load true "plan" "" "bo"
    ∷ []

abbrev pub no_rows : Db
no_rows = record { tasks = []; approvals = []; transitions = [] }

requests_ready :
    is_ready (serve_all requests (create_initiative "i1" "/home/ana" no_rows)).item.status ≡ true
unfolding serve_all serve resolve_initiative_phase trim_space generate_initiative_tasks
    advance_initiative create_initiative update_initiative validate_phase_artifact_payload
    validate_requirements_payload require_keys get validate_design_payload materialize
    validate_execution_plan_payload is_recognized_task_launch_mode list_initiative_tasks stable_sort
    insert_sorted create_task insert_task new_task validate_epics validate_plan_task
    validate_plan_tasks trim_left trim_right put clean join
requests_ready = refl

serve_all_approved_example :
    (was_approved requirements
        (serve_all requests (create_initiative "i1" "/home/ana" no_rows)).reviews
      ≡ true)
    × (was_approved design (serve_all requests (create_initiative "i1" "/home/ana" no_rows)).reviews
        ≡ true)
    × (was_approved plan (serve_all requests (create_initiative "i1" "/home/ana" no_rows)).reviews
        ≡ true)
serve_all_approved_example = serve_all_approved requests "i1" "/home/ana" no_rows requests_ready

abbrev linked : String → Link
linked k = record {
  task_id = k;
  epic = some "notes";
  launch_group = none;
  execution_mode = "agent_local";
  launch_order = 10;
}

-- A plan under review, with a task that was made for it.
abbrev reviewing : Rows
reviewing = record {
  item = record {
    id = "i1";
    workspace_root = "/home/ana";
    status = plan_review;
    current_phase = plan;
    active_requirements_artifact_id = some "r";
    active_design_artifact_id = some "d";
    active_plan_artifact_id = some "p";
    archived_at = none;
  };
  reviews = [];
  links = linked "t1" ∷ [];
  db = record { tasks = task_of "t1" created ∷ []; approvals = []; transitions = [] };
}

abbrev accepted : Rows
accepted = record reviewing {
  item = record reviewing.item { status = execution_ready; current_phase = execution };
}

local_workspace :
    allows_mode (resolve_execution_policy "/srv/lab" accepted.item.workspace_root) "agent_remote"
    ≡ false
unfolding resolve_execution_policy allows_mode clean trim_space
local_workspace = refl

launch_local_enqueues_none_example :
    (launch_initiative_tasks "/srv/lab" [] [] (λ k. "") (λ k. true) 9 accepted).0.enqueued ≡ []
launch_local_enqueues_none_example =
    launch_local_enqueues_none "/srv/lab" [] [] (λ k. "") (λ k. true) 9 accepted local_workspace

abbrev changed : Rows
changed = (update_initiative_task_mode "/srv/lab" "t1" "manual" 9 reviewing).0

change_accepted : update_initiative_task_mode "/srv/lab" "t1" "manual" 9 reviewing ≡ (changed, done)
unfolding update_initiative_task_mode is_recognized_task_launch_mode resolve_execution_policy
    allows_mode clean trim_space validate_task_launch_against_policy update_task_launch_mode
    reconcile_initiative_execution
change_accepted = refl

change_keeps_tasks : list_initiative_tasks changed ≢ []
unfolding update_initiative_task_mode is_recognized_task_launch_mode resolve_execution_policy
    allows_mode clean trim_space validate_task_launch_against_policy update_task_launch_mode
    reconcile_initiative_execution list_initiative_tasks stable_sort insert_sorted
change_keeps_tasks e = cc e

update_initiative_task_mode_moves_example :
    (changed.item.current_phase ≡ execution) × (changed.reviews ≡ reviewing.reviews)
update_initiative_task_mode_moves_example =
    update_initiative_task_mode_moves "/srv/lab" "t1" "manual" 9 reviewing changed change_accepted
      change_keeps_tasks

abbrev repaired : List TaskLink
repaired =
    record {
      execution_mode = "agent_local";
      task = record (task_of "t1" TaskState.cancelled) {
        metadata = field "superseded_by_repair_cycle" (Json.bool true) end;
      };
    }
    ∷ record { execution_mode = "agent_local"; task = task_of "t2" TaskState.completed }
    ∷ []

status_http-compared_example :
    (any was_replaced repaired ≡ false
      → derive_initiative_execution_status_http executing repaired
        ≡ derive_initiative_execution_status executing repaired)
    × (any was_replaced repaired ≡ true
        → derive_initiative_execution_status_http executing repaired ≡ blocked)
status_http-compared_example = status_http-compared executing repaired
