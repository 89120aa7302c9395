-- ===== src/Task/Store/Approvals.antt =====
-- RequestApproval and ResolveApproval (store/postgres.go).
use ia_lab.Prelude.{
  ℕ, ◌+◌, ◌*◌, String, Bool, true, false, Option, none, some, ◌∷◌, str_append, if◌then◌else◌,
}
use ia_lab.Prelude.Json
use ia_lab.Prelude.Json.{Json, Fields}
use ia_lab.Task.State.{
  TaskState, ApprovalStatus, waiting_approval, queued, cancelled, pending, approved, rejected,
  is_pending,
}
use ia_lab.Task.Model.{
  Task, Approval, Db, Result, ok, err, ◌>>=◌, approval_not_found, approval_already_resolved,
  update_task, get_approval, update_approval,
}
use ia_lab.Task.Store.{load_task, check, check_transition, transition_task_state_tx}

unfoldable pub new_approval : String → String → String → String → ℕ → ℕ → Approval
new_approval approval_id k action_type target_resource timeout_seconds now = record {
  id = approval_id;
  task_id = k;
  action_type = action_type;
  target_resource = target_resource;
  status = pending;
  operator = none;
  timeout_seconds = timeout_seconds;
  escalation_level = 1;
  requested_at = now;
  resolved_at = none;
  timeout_at = now + timeout_seconds * 1000000;
}

abbrev pub set_metadata : Fields → Task → Task
set_metadata m t = record t { metadata = m }

unfoldable pub request_approval :
    String → String → String → String → ℕ → String → String → Fields → ℕ → Db → Result Db
unfolding new_approval
request_approval approval_id k action_type target_resource timeout_seconds actor reason patch now
      db =
    do
      task ← load_task k db
      _ ← check_transition task.state waiting_approval
      let approval = new_approval approval_id k action_type target_resource timeout_seconds now
      let written = record db {
        approvals = approval ∷ db.approvals;
        tasks = update_task k (set_metadata (Json.merge task.metadata patch)) db.tasks;
      }
      ok (transition_task_state_tx k task.state waiting_approval actor reason now written)

abbrev pub require_approval : Option Approval → Result Approval
require_approval none = err approval_not_found
require_approval (some a) = ok a

abbrev pub load_approval : String → Db → Result Approval
load_approval k db = require_approval (get_approval k db.approvals)

-- What a decision makes of the approval, of the task and of its metadata.
abbrev pub decided_status : Bool → ApprovalStatus
decided_status approve = if approve then approved else rejected

abbrev pub decided_state : Bool → TaskState
decided_state approve = if approve then queued else cancelled

abbrev pub decided_reason : Bool → String
decided_reason approve = if approve then "Approval granted" else "approval_rejected"

unfoldable pub decided_metadata : Bool → Fields → Fields
decided_metadata true m =
    Json.delete "approval_requested" (Json.put "approval_granted" (Json.bool true) m)
decided_metadata false m = Json.put "approval_granted" (Json.bool false) m

unfoldable pub close_approval : ApprovalStatus → String → ℕ → Approval → Approval
close_approval status operator now a = record a {
  status = status;
  operator = some operator;
  resolved_at = some now;
}

-- The approval is closed and the metadata of its task is written.
unfoldable pub write_decision : String → Bool → String → ℕ → Approval → Task → Db → Db
unfolding decided_metadata close_approval
write_decision approval_id approve operator now approval task db = record db {
  approvals =
      update_approval approval_id (close_approval (decided_status approve) operator now)
        db.approvals;
  tasks =
      update_task approval.task_id (set_metadata (decided_metadata approve task.metadata)) db.tasks;
}

unfoldable pub resolve_approval : String → Bool → String → ℕ → Db → Result Db
unfolding write_decision
resolve_approval approval_id approve operator now db = do
  approval ← load_approval approval_id db
  _ ← check (is_pending approval.status) approval_already_resolved
  task ← load_task approval.task_id db
  let written = write_decision approval_id approve operator now approval task db
  _ ← check_transition task.state (decided_state approve)
  ok (
      transition_task_state_tx approval.task_id task.state (decided_state approve)
        (str_append "operator:" operator) (decided_reason approve) now written)
