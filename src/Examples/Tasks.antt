-- ===== src/Examples/Tasks.antt =====
-- Concrete rows of the store, and the laws of the task lifecycle at them.
use ia_lab.Prelude.{◌≡◌, ◌↔◌, refl, true, false, none, some, [], ◌∷◌, String, ◌⊎◌}
use ia_lab.Prelude.Json
use ia_lab.Prelude.Json.{Json, Fields, end, field}
use ia_lab.Task.State.{
  TaskKind, TaskState, queued, waiting_approval, completed, coder, normal, remote, pending,
  is_valid_transition, is_terminal_state, retrying, approved,
}
use ia_lab.Task.Model.{
  Task, Approval, Db, Result, ok, err, approval_already_resolved, get_task, get_approval,
}
use ia_lab.Task.Store.Approvals.{resolve_approval}
use ia_lab.Task.Laws.States.{LeadsTo, LeadsTo-completed_iff}
use ia_lab.Task.Laws.Approvals.{resolve_approval_once, resolve_approval_effect}

abbrev pub task_of : String → TaskState → Task
task_of k s = record {
  id = k;
  state = s;
  description = "write the release notes";
  metadata = field "approval_requested" (Json.bool true) end;
  parent_task_id = none;
  root_task_id = some "root";
  task_kind = TaskKind.root;
  assigned_agent = some coder;
  planned_agent = none;
  priority = normal;
  execution_target = remote;
  initiative_id = none;
  workspace_path = none;
  retry_count = 0;
  correlation_id = "c";
  results = none;
  error_message = none;
  created_at = 1;
  updated_at = 1;
  queued_at = some 1;
  started_at = some 2;
  completed_at = none;
  archived_at = none;
}

LeadsTo-completed_iff_example :
    LeadsTo completed retrying ↔ ((retrying ≡ completed) ⊎ (is_terminal_state retrying ≡ false))
LeadsTo-completed_iff_example = LeadsTo-completed_iff retrying

-- A task that waits for a decision, and the approval it waits for.
abbrev waiting_task : Task
waiting_task = task_of "t1" waiting_approval

abbrev open_approval : Approval
open_approval = record {
  id = "a1";
  task_id = "t1";
  action_type = "git push";
  target_resource = "main";
  status = pending;
  operator = none;
  timeout_seconds = 3600;
  escalation_level = 0;
  requested_at = 3;
  resolved_at = none;
  timeout_at = 3603;
}

abbrev asking : Db
asking = record { tasks = waiting_task ∷ []; approvals = open_approval ∷ []; transitions = [] }

resolve_approval_effect_example :
    (db' : Db) × (resolve_approval "a1" true "ana" 9 asking ≡ ok db')
    × (a' : Approval) × (get_approval "a1" db'.approvals ≡ some a')
    × (a'.status ≡ approved)
    × (a'.operator ≡ some "ana")
    × (a'.resolved_at ≡ some 9)
    × (a'.task_id ≡ "t1")
    × (t' : Task) × (get_task "t1" db'.tasks ≡ some t')
    × (t'.state ≡ queued)
    × (Json.get "approval_granted" t'.metadata ≡ some (Json.bool true))
    × (true ≡ true → Json.get "approval_requested" t'.metadata ≡ none)
resolve_approval_effect_example =
    resolve_approval_effect "a1" true "ana" 9 asking open_approval waiting_task refl refl refl refl

abbrev decided : Result Db → Db
decided (ok db) = db
decided (err _) = asking

resolve_approval_once_example :
    resolve_approval "a1" false "bo" 10 (decided (resolve_approval "a1" true "ana" 9 asking))
    ≡ err approval_already_resolved
unfolding resolve_approval is_valid_transition
resolve_approval_once_example = resolve_approval_once "a1" true false "ana" "bo" 9 10 asking _ refl
