-- ===== src/Initiative/Status.antt =====
-- deriveInitiativeExecutionStatus (internal/orchestratorgo/store/initiatives.go), with the types
-- of domain/initiative.go.
pub mod Laws
use ia_lab.Prelude.{
  ℕ, String, ◌≡◌, refl, Bool, true, false, not, ◌&&◌, ◌||◌, Option, none, some, List, [], ◌∷◌,
  equal_fold_ascii, trim_space, str_eq, if◌then◌else◌,
}
use ia_lab.Prelude.Json
use ia_lab.Prelude.Json.{Json, Fields}
use ia_lab.Task.State.{
  TaskState, created, queued, assigned, in_progress, waiting_approval, review, retrying, failed,
  state_eq,
}
use ia_lab.Task.Model.{Task}

pub data InitiativeStatus : Type 0 where
  idea_submitted requirements_draft requirements_review design_draft design_review plan_draft
        plan_review execution_ready executing blocked completed cancelled :
      InitiativeStatus

pub record TaskLink : Type 0 where
  pub execution_mode : String
  pub task : Task

abbrev flag_of : Option Json → Bool
flag_of (some (Json.bool b)) = b
flag_of (some (Json.str s)) = equal_fold_ascii (trim_space s) "true"
flag_of _ = false

-- taskMetadataBool
unfoldable pub task_metadata_bool : Fields → String → Bool
task_metadata_bool m k = flag_of (Json.get k m)

pub record Flags : Type 0 where
  pub has_failed : Bool
  pub has_running : Bool
  pub has_pending_manual : Bool
  pub all_terminal : Bool

abbrev pub is_pending_manual : TaskLink → Bool
is_pending_manual i = str_eq i.execution_mode "manual" && state_eq i.task.state created

abbrev pub is_superseded : TaskLink → Bool
is_superseded i = task_metadata_bool i.task.metadata "superseded_by_repair_cycle"

-- The switch of the loop, for an item that does not wait for an operator.
unfoldable pub see : TaskState → Bool → Flags → Flags
see failed superseded f = record f { has_failed = true; all_terminal = false }
see TaskState.cancelled superseded f =
    if superseded then f else record f { has_failed = true; all_terminal = false }
see TaskState.completed superseded f = f
see _ superseded f = record f { has_running = true; all_terminal = false }

unfoldable pub visit : TaskLink → Flags → Flags
unfolding see
visit i f =
    if is_pending_manual i
    then record f { has_pending_manual = true; all_terminal = false }
    else see i.task.state (is_superseded i) f

unfoldable pub visit_all : List TaskLink → Flags → Flags
unfolding visit
visit_all [] f = f
visit_all (i ∷ items) f = visit_all items (visit i f)

unfoldable pub conclude : InitiativeStatus → Flags → InitiativeStatus
conclude current f =
    if f.has_failed
    then blocked
    else if f.has_running
    then executing
    else if f.has_pending_manual
    then execution_ready
    else if f.all_terminal
    then InitiativeStatus.completed
    else current

abbrev pub no_flags : Flags
no_flags = record {
  has_failed = false;
  has_running = false;
  has_pending_manual = false;
  all_terminal = true;
}

unfoldable pub derive_initiative_execution_status :
    InitiativeStatus → List TaskLink → InitiativeStatus
derive_initiative_execution_status current [] = current
derive_initiative_execution_status current (i ∷ items) =
    conclude current (visit_all (i ∷ items) no_flags)
