-- ===== src/Initiative/Phases.antt =====
-- internal/orchestratorgo/httpapi/initiatives.go: the handlers that take an initiative through its
-- phases. `load` is what getActiveInitiativeArtifactJSON reads under an artifact's identifier;
-- `produced` is what the generator and the storing of its artifacts give, the identifiers or, when
-- the generator fails, nothing. A request's body is decoded; the database answers.
use ia_lab.Prelude.{
  ℕ, ◌+◌, String, Bool, true, false, not, ◌&&◌, ◌||◌, Option, none, some, List, [], ◌∷◌, is_blank,
  is_some, trim_space, if◌then◌else◌,
}
use ia_lab.Prelude.Json.{Fields}
use ia_lab.Task.Store.Create.{CreateTaskParams, create_task}
use ia_lab.Initiative.Status.{
  InitiativeStatus, requirements_draft, requirements_review, design_draft, design_review,
  plan_draft, plan_review, execution_ready,
}
use ia_lab.Initiative.Contracts.{
  ContractError, no_contract, validate_requirements_payload, validate_design_payload,
  validate_execution_plan_payload,
}
use ia_lab.Initiative.Model.{
  InitiativePhase, requirements, design, plan, execution, phase_eq, phase_of_text, ReviewDecision,
  generated, approved, rejected, PhaseArtifactIds, Review, Initiative, Rows, UpdateInitiativeParams,
  no_update, update_initiative, put_link, list_initiative_tasks,
}

-- What the client gets: 200, or an error with its status code.
pub data Response : Type 0 where
  done : Response
  refused : ℕ → Response

-- cleanStringPtr
abbrev clean_string : String → Option String
clean_string s = if is_blank s then none else some (trim_space s)

abbrev pub first_non_empty : String → String → String
first_non_empty a b = if is_blank a then (if is_blank b then "" else b) else a

abbrev pub add_review : Review → Rows → Rows
add_review review r = record r { reviews = review ∷ r.reviews }

-- activeArtifactJSONIDForPhase
abbrev pub active_artifact_id : Initiative → InitiativePhase → Option String
active_artifact_id i requirements = i.active_requirements_artifact_id
active_artifact_id i design = i.active_design_artifact_id
active_artifact_id i plan = i.active_plan_artifact_id
active_artifact_id i execution = none

-- The identifier must be there and not blank.
abbrev pub load_active : (String → Option Fields) → Option String → Option Fields
load_active load none = none
load_active load (some id) = if is_blank id then none else load (trim_space id)

-- validatePhaseArtifactPayload
unfoldable pub validate_phase_artifact_payload : InitiativePhase → Fields → Option ContractError
validate_phase_artifact_payload requirements payload = validate_requirements_payload payload
validate_phase_artifact_payload design payload = validate_design_payload payload
validate_phase_artifact_payload plan payload = validate_execution_plan_payload payload
validate_phase_artifact_payload execution payload = some no_contract

-- updateInitiativeActiveArtifacts
abbrev pub activate : InitiativePhase → InitiativeStatus → Option String → UpdateInitiativeParams
activate phase status id = elim phase [
  | requirements ↦ record no_update {
    status = some status;
    current_phase = some requirements;
    active_requirements_artifact_id = id;
  }
  | design ↦ record no_update {
    status = some status;
    current_phase = some design;
    active_design_artifact_id = id;
  }
  | plan ↦ record no_update {
    status = some status;
    current_phase = some plan;
    active_plan_artifact_id = id;
  }
  | execution ↦ record no_update { status = some status; current_phase = some execution }
]

-- The review and the row after a phase was generated.
abbrev pub save_generated :
    InitiativePhase → InitiativeStatus → String → PhaseArtifactIds → Rows → Rows
save_generated phase status feedback ids r =
    let reviewed =
      add_review
        (record {
          phase = phase;
          decision = generated;
          feedback = clean_string feedback;
          generated_by = "initiative-service";
          artifacts = ids;
        })
        r in
    record reviewed { item = update_initiative (activate phase status ids.json_id) reviewed.item }

abbrev pub generate_phase :
    InitiativePhase → InitiativeStatus → String → Option PhaseArtifactIds → Rows → Rows × Response
generate_phase phase status feedback none r = (r, refused 502)
generate_phase phase status feedback (some ids) r =
    (save_generated phase status feedback ids r, done)

abbrev pub advance_at :
    InitiativePhase
    → (String → Option Fields)
    → String
    → Option PhaseArtifactIds
    → Rows
    → Rows × Response
advance_at requirements load feedback produced r =
    generate_phase requirements requirements_review feedback produced r
advance_at design load feedback produced r =
    if is_some (load_active load r.item.active_requirements_artifact_id)
    then generate_phase design design_review feedback produced r
    else (r, refused 400)
advance_at plan load feedback produced r = (r, refused 400)
advance_at execution load feedback produced r = (r, refused 400)

-- advanceInitiative
unfoldable pub advance_initiative :
    (String → Option Fields) → String → Option PhaseArtifactIds → Rows → Rows × Response
advance_initiative load feedback produced r =
    advance_at r.item.current_phase load feedback produced r

abbrev pub status_is_plan_review : InitiativeStatus → Bool
status_is_plan_review plan_review = true
status_is_plan_review _ = false

abbrev pub status_is_plan_draft : InitiativeStatus → Bool
status_is_plan_draft plan_draft = true
status_is_plan_draft _ = false

-- latestReviewArtifactIDsForPhase
abbrev latest_artifacts : List Review → InitiativePhase → PhaseArtifactIds
latest_artifacts [] phase = record { markdown_id = none; json_id = none }
latest_artifacts (v ∷ vs) phase =
    if phase_eq v.phase phase && (is_some v.artifacts.json_id || is_some v.artifacts.markdown_id)
    then v.artifacts
    else latest_artifacts vs phase

abbrev pub decision_of : Bool → ReviewDecision
decision_of approve = if approve then approved else rejected

-- The status and the phase after a decision; none for the execution.
abbrev pub next_of : Bool → InitiativePhase → Option (InitiativeStatus × InitiativePhase)
next_of true requirements = some (design_draft, design)
next_of true design = some (plan_draft, plan)
next_of true plan = some (execution_ready, execution)
next_of false requirements = some (requirements_draft, requirements)
next_of false design = some (design_draft, design)
next_of false plan = some (plan_draft, plan)
next_of _ execution = none

abbrev pub move_to : Option (InitiativeStatus × InitiativePhase) → Rows → Rows × Response
move_to none r = (r, refused 400)
move_to (some (status, phase)) r = (
  record r {
    item =
        update_initiative (record no_update { status = some status; current_phase = some phase })
          r.item;
  },
  done,
)

abbrev pub no_tasks : Rows → Bool
no_tasks r = elim (list_initiative_tasks r) [ [] ↦ true | _ ↦ false ]

abbrev pub decision_review : Bool → InitiativePhase → String → String → Rows → Review
decision_review approve phase feedback operator r = record {
  phase = phase;
  decision = decision_of approve;
  feedback = clean_string feedback;
  generated_by = first_non_empty (trim_space operator) "operator";
  artifacts = latest_artifacts r.reviews phase;
}

-- After the artifact of the phase was loaded.
abbrev pub resolve_loaded :
    Bool → InitiativePhase → String → String → Option Fields → Rows → Rows × Response
resolve_loaded approve phase feedback operator none r = (r, refused 400)
resolve_loaded approve phase feedback operator (some payload) r =
    if is_some (validate_phase_artifact_payload phase payload)
    then (r, refused 409)
    else if approve && phase_eq phase plan && no_tasks r
    then (r, refused 409)
    else move_to (next_of approve phase)
        (add_review (decision_review approve phase feedback operator r) r)

abbrev pub resolve_recognized :
    (String → Option Fields)
    → Bool
    → Option InitiativePhase
    → String
    → String
    → Rows
    → Rows × Response
resolve_recognized load approve none feedback operator r = (r, refused 400)
resolve_recognized load approve (some phase) feedback operator r =
    if not (phase_eq r.item.current_phase phase)
      && not (phase_eq phase plan && status_is_plan_review r.item.status)
    then (r, refused 409)
    else resolve_loaded approve phase feedback operator
        (load_active load (active_artifact_id r.item phase)) r

-- resolveInitiativePhase
unfoldable pub resolve_initiative_phase :
    (String → Option Fields) → Bool → String → String → String → Rows → Rows × Response
resolve_initiative_phase load approve phase_text feedback operator r =
    resolve_recognized load approve (phase_of_text phase_text) feedback operator r

-- A task of the plan, with the identifiers that its rows get. What materializeInitiativePlanTasks
-- makes of the payload of a task is given.
pub record PlannedTask : Type 0 where
  pub params : CreateTaskParams
  pub task_id : String
  pub correlation_id : String
  pub epic : String
  pub group : String
  pub mode : String

-- The loop of materializeInitiativePlanTasks.
unfoldable pub materialize : ℕ → ℕ → List PlannedTask → Rows → Rows
materialize order now [] r = r
materialize order now (t ∷ ts) r = materialize (order + 10) now ts (record r {
  db = create_task t.params t.task_id t.correlation_id now r.db;
  links =
      put_link
        (record {
          task_id = t.task_id;
          epic = clean_string t.epic;
          launch_group = clean_string t.group;
          execution_mode = first_non_empty (trim_space t.mode) "agent_local";
          launch_order = order;
        })
        r.links;
})

abbrev pub generate_backlog :
    String → Option PhaseArtifactIds → List PlannedTask → ℕ → Rows → Rows × Response
generate_backlog feedback none tasks now r = (r, refused 502)
generate_backlog feedback (some ids) tasks now r =
    (materialize 10 now tasks (save_generated plan plan_review feedback ids r), done)

-- generateInitiativeTasks
unfoldable pub generate_initiative_tasks :
    (String → Option Fields)
    → String
    → Option PhaseArtifactIds
    → List PlannedTask
    → ℕ
    → Rows
    → Rows × Response
generate_initiative_tasks load feedback produced tasks now r =
    if not (status_is_plan_draft r.item.status) || not (phase_eq r.item.current_phase plan)
    then (r, refused 409)
    else if is_some (load_active load r.item.active_design_artifact_id)
    then generate_backlog feedback produced tasks now r
    else (r, refused 400)
