-- ===== src/Initiative/Contracts.antt =====
-- internal/orchestratorgo/initiative/contracts.go: what the payload of each phase must hold, and
-- which modes a workspace may launch. Payloads come from encoding/json, so a list is a `Json.arr`.
-- Of what fmt.Sprint prints for a value that is no text, only that it is not blank is used.
pub mod Laws
use ia_lab.Prelude.{
  ℕ, suc, String, Bool, true, false, not, ◌&&◌, ◌||◌, Option, none, some, List, [], ◌∷◌, any,
  filter, is_blank, is_empty, trim_space, starts_with, str_append, str_eq, if◌then◌else◌,
}
use ia_lab.Prelude.Json
use ia_lab.Prelude.Json.{Json, Items, nil, cons, Fields, end, field}
use ia_lab.Prelude.FilePath.{clean}

pub data ContractError : Type 0 where
  missing missing_list missing_value : String → ContractError
  no_epics : ContractError
  epic_unnamed : ℕ → ContractError
  epic_without_tasks : String → ContractError
  task_untitled : String → ℕ → ContractError
  task_undescribed task_without_done : String → ContractError
  invalid_agent invalid_mode invalid_target : String → String → ContractError
  mode_not_allowed : String → String → ContractError
  no_contract : ContractError

-- The error of the first check that fails.
abbrev pub first_error : Option ContractError → Option ContractError → Option ContractError
first_error none next = next
first_error (some e) next = some e

abbrev pub refuse_if : Bool → ContractError → Option ContractError
refuse_if bad e = if bad then some e else none

abbrev pub as_string : Option Json → String
as_string (some (Json.str s)) = s
as_string _ = ""

abbrev pub items_of : Items → List Json
items_of nil = []
items_of (cons v vs) = v ∷ items_of vs

-- strings.TrimSpace(fmt.Sprint(item)) == ""
abbrev pub is_blank_item : Json → Bool
is_blank_item (Json.str s) = is_blank s
is_blank_item _ = false

-- normalizedStringSlice; the items whose text is kept.
abbrev pub normalized_string_slice : Option Json → List Json
normalized_string_slice (some (Json.arr vs)) = filter (λ v. not (is_blank_item v)) (items_of vs)
normalized_string_slice _ = []

abbrev pub maps_of : List Json → List Fields
maps_of [] = []
maps_of (Json.obj m ∷ vs) = m ∷ maps_of vs
maps_of (_ ∷ vs) = maps_of vs

abbrev pub normalized_map_slice : Option Json → List Fields
normalized_map_slice (some (Json.arr vs)) = maps_of (items_of vs)
normalized_map_slice _ = []

abbrev pub is_nothing {ℓ} : {A : Type ℓ} → List A → Bool
is_nothing [] = true
is_nothing (_ ∷ _) = false

abbrev has_no_key : Fields → Bool
has_no_key end = true
has_no_key (field k v m) = false

abbrev pub is_empty_structured_value : Option Json → Bool
is_empty_structured_value none = true
is_empty_structured_value (some Json.null) = true
is_empty_structured_value (some (Json.str s)) = is_blank s
is_empty_structured_value (some (Json.arr vs)) =
    is_nothing (normalized_string_slice (some (Json.arr vs)))
    && is_nothing (normalized_map_slice (some (Json.arr vs)))
is_empty_structured_value (some (Json.obj m)) = has_no_key m
is_empty_structured_value (some _) = false

-- The loop over the keys that a payload must have.
unfoldable pub require_keys :
    (Option Json → Bool) → (String → ContractError) → List String → Fields → Option ContractError
require_keys lacks e [] payload = none
require_keys lacks e (key ∷ keys) payload =
    first_error (refuse_if (lacks (Json.get key payload)) (e key))
      (require_keys lacks e keys payload)

abbrev pub lacks_text : Option Json → Bool
lacks_text v = is_blank (as_string v)

abbrev pub requirements_lists : List String
requirements_lists =
    "scope" ∷ "out_of_scope" ∷ "constraints" ∷ "risks" ∷ "acceptance_criteria" ∷ "open_questions"
    ∷ "assumptions" ∷ []

unfoldable pub validate_requirements_payload : Fields → Option ContractError
validate_requirements_payload payload =
    first_error (require_keys lacks_text missing ("objective" ∷ []) payload) (
      require_keys (λ v. is_nothing (normalized_string_slice v)) missing_list requirements_lists
        payload)

abbrev pub design_values : List String
design_values =
    "components" ∷ "interfaces" ∷ "data_model" ∷ "testing_strategy" ∷ "technical_risks"
    ∷ "pending_decisions" ∷ []

unfoldable pub validate_design_payload : Fields → Option ContractError
validate_design_payload payload =
    first_error (require_keys lacks_text missing ("architecture" ∷ []) payload)
      (require_keys is_empty_structured_value missing_value design_values payload)

abbrev pub text_of : String → Fields → String
text_of key m = trim_space (as_string (Json.get key m))

-- domain.IsRecognizedTaskLaunchMode
unfoldable pub is_recognized_task_launch_mode : String → Bool
is_recognized_task_launch_mode mode =
    str_eq mode "manual" || str_eq mode "agent_local" || str_eq mode "agent_remote"

abbrev pub is_plan_agent : String → Bool
is_plan_agent agent =
    str_eq agent "planner"
    || str_eq agent "researcher"
    || str_eq agent "coder"
    || str_eq agent "reviewer"

abbrev pub is_plan_target : String → Bool
is_plan_target target = str_eq target "local" || str_eq target "remote"

-- The body of the inner loop; `epic` is the name as given.
unfoldable pub validate_plan_task : String → ℕ → Fields → Option ContractError
validate_plan_task epic index task =
    let title = as_string (Json.get "title" task) in
    first_error (refuse_if (is_empty (text_of "title" task)) (task_untitled epic index)) (
      first_error (refuse_if (is_empty (text_of "description" task)) (task_undescribed title)) (
        first_error
          (refuse_if (not (is_plan_agent (text_of "suggested_agent" task)))
            (invalid_agent title (text_of "suggested_agent" task)))
          (first_error
            (refuse_if (not (is_recognized_task_launch_mode (text_of "execution_mode" task)))
              (invalid_mode title (text_of "execution_mode" task)))
            (first_error
              (refuse_if (not (is_plan_target (text_of "execution_target" task)))
                (invalid_target title (text_of "execution_target" task)))
              (refuse_if (is_empty (text_of "definition_of_done" task))
                (task_without_done title))))))

unfoldable pub validate_plan_tasks : String → ℕ → List Fields → Option ContractError
unfolding validate_plan_task
validate_plan_tasks epic index [] = none
validate_plan_tasks epic index (task ∷ tasks) =
    first_error (validate_plan_task epic index task) (validate_plan_tasks epic (suc index) tasks)

unfoldable pub validate_epics : ℕ → List Fields → Option ContractError
unfolding validate_plan_tasks
validate_epics index [] = none
validate_epics index (epic ∷ epics) =
    let tasks = normalized_map_slice (Json.get "tasks" epic) in
    first_error (refuse_if (is_empty (text_of "name" epic)) (epic_unnamed index)) (
      first_error
        (refuse_if (is_nothing tasks) (epic_without_tasks (as_string (Json.get "name" epic))))
        (first_error (validate_plan_tasks (as_string (Json.get "name" epic)) 0 tasks)
          (validate_epics (suc index) epics)))

unfoldable pub validate_execution_plan_payload : Fields → Option ContractError
unfolding validate_epics
validate_execution_plan_payload payload =
    let epics = normalized_map_slice (Json.get "epics" payload) in
    first_error (refuse_if (is_nothing epics) no_epics) (validate_epics 0 epics)

pub record ExecutionPolicy : Type 0 where
  pub workspace_root : String
  pub scope : String
  pub allowed_modes : List String
  pub approval_required_modes : List String

-- A workspace at or below the orchestrator's is remote, every other one is for a local bridge.
unfoldable pub resolve_execution_policy : String → String → ExecutionPolicy
resolve_execution_policy orchestrator_root root =
    let own = clean (trim_space orchestrator_root) in
    let workspace = clean (trim_space root) in
    if not (is_empty workspace)
      && not (is_empty own)
      && (str_eq workspace own || starts_with workspace (str_append own "/"))
    then record {
      workspace_root = workspace;
      scope = "orchestrator_remote";
      allowed_modes = "manual" ∷ "agent_remote" ∷ [];
      approval_required_modes = [];
    }
    else record {
      workspace_root = workspace;
      scope = "local_bridge";
      allowed_modes = "manual" ∷ "agent_local" ∷ [];
      approval_required_modes = [];
    }

unfoldable pub allows_mode : ExecutionPolicy → String → Bool
allows_mode p mode = any (λ m. str_eq (trim_space m) (trim_space mode)) p.allowed_modes

unfoldable pub validate_task_launch_against_policy : ExecutionPolicy → String → Option ContractError
unfolding allows_mode
validate_task_launch_against_policy policy mode =
    refuse_if (not (allows_mode policy (trim_space mode)))
      (mode_not_allowed (trim_space mode) policy.scope)
