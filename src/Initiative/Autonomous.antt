-- ===== src/Initiative/Autonomous.antt =====
-- internal/orchestratorgo/initiative/autonomous.go: an initiative that is started from a channel and run
-- through its phases up to the launch. What the generators and the store of artifacts give are the
-- arguments of Phases; the operations of the store are those of Model. `queue` is none for a runner
-- without a queue, else it says whether a task can be put on it.
pub mod Laws
use ia_lab.Prelude.{
  ℕ, suc, String, Bool, true, false, not, ◌&&◌, Option, none, some, List, [], ◌∷◌, ◌++◌, is_blank,
  is_empty, is_some, str_eq, trim_space, if◌then◌else◌,
}
use ia_lab.Prelude.Json.{Fields}
use ia_lab.Task.State.{AgentType, is_local}
use ia_lab.Task.Model.{Task, Db, Result, ok, err, get_task, Enqueued}
use ia_lab.Task.Store.{queue_task_for_launch}
use ia_lab.Task.Store.Create.{update_task_launch_mode}
use ia_lab.Initiative.Status.{
  InitiativeStatus, requirements_review, design_review, plan_review, design_draft, plan_draft,
  execution_ready,
}
use ia_lab.Initiative.Contracts.{
  ExecutionPolicy, resolve_execution_policy, allows_mode, validate_task_launch_against_policy,
}
use ia_lab.Initiative.Model.{
  InitiativePhase, requirements, design, plan, execution, generated, approved, PhaseArtifactIds,
  Review, Rows, LinkedTask, UpdateInitiativeParams, no_update, update_initiative, create_initiative,
  list_initiative_tasks, reconcile_initiative_execution, update_links,
}
use ia_lab.Initiative.Phases.{
  PlannedTask, materialize, add_review, active_artifact_id, load_active, first_non_empty,
}

-- The rows, what was put on queues, the number of launched tasks, and whether the run goes on.
pub record Run : Type 0 where
  pub rows : Rows
  pub enqueued : List Enqueued
  pub launched : ℕ
  pub goes_on : Bool

abbrev pub stop : Run → Run
stop x = record x { goes_on = false }

abbrev pub with_rows : Rows → Run → Run
with_rows r x = record x { rows = r }

-- updateInitiativeActiveArtifacts of the autonomous runner: the phase stays.
abbrev pub activate_in_phase :
    InitiativePhase → InitiativeStatus → Option String → UpdateInitiativeParams
activate_in_phase requirements status id = record no_update {
  status = some status;
  active_requirements_artifact_id = id;
}
activate_in_phase design status id = record no_update {
  status = some status;
  active_design_artifact_id = id;
}
activate_in_phase plan status id = record no_update {
  status = some status;
  active_plan_artifact_id = id;
}
activate_in_phase execution status id = record no_update { status = some status }

-- recordGeneratedReview and the update that follows it.
abbrev pub save_phase : InitiativePhase → InitiativeStatus → PhaseArtifactIds → Rows → Rows
save_phase phase status ids r =
    let reviewed =
      add_review
        (record {
          phase = phase;
          decision = generated;
          feedback = none;
          generated_by = "initiative-service";
          artifacts = ids;
        })
        r in
    record reviewed {
      item = update_initiative (activate_in_phase phase status ids.json_id) reviewed.item;
    }

abbrev approved_state : InitiativePhase → Option (InitiativeStatus × InitiativePhase)
approved_state requirements = some (design_draft, design)
approved_state design = some (plan_draft, plan)
approved_state plan = some (execution_ready, execution)
approved_state execution = none

abbrev pub enter_state : Option (InitiativeStatus × InitiativePhase) → Run → Run
enter_state none x = stop x
enter_state (some (status, phase)) x =
    with_rows
      (record x.rows {
        item =
            update_initiative
              (record no_update { status = some status; current_phase = some phase }) x.rows.item;
      })
      x

-- approvePhase
abbrev pub approve_phase : InitiativePhase → String → Run → Run
approve_phase phase operator x = enter_state (approved_state phase) (
    with_rows
      (add_review
        (record {
          phase = phase;
          decision = approved;
          feedback = none;
          generated_by = first_non_empty (trim_space operator) "autonomous";
          artifacts = record { markdown_id = none; json_id = none };
        })
        x.rows)
      x)

abbrev pub approve_if : Bool → InitiativePhase → String → Run → Run
approve_if auto phase operator x = if auto then approve_phase phase operator x else x

-- What a request asks for, and what the services around it give for each phase.
pub record Request : Type 0 where
  pub auto_approve_phases : Bool
  pub operator_id : String
  pub load : String → Option Fields
  pub produced : InitiativePhase → Option PhaseArtifactIds
  pub planned : List PlannedTask
  pub now : ℕ

abbrev pub make_phase :
    Request
    → InitiativePhase
    → InitiativeStatus
    → List PlannedTask
    → Option PhaseArtifactIds
    → Run
    → Run
make_phase q phase status tasks none x = stop x
make_phase q phase status tasks (some ids) x =
    approve_if q.auto_approve_phases phase q.operator_id
      (with_rows (materialize 10 q.now tasks (save_phase phase status ids x.rows)) x)

-- A phase that is made from the artifact of the one before it.
abbrev pub make_from :
    Request → InitiativePhase → InitiativePhase → InitiativeStatus → List PlannedTask → Run → Run
make_from q before phase status tasks x =
    if is_some (load_active q.load (active_artifact_id x.rows.item before))
    then make_phase q phase status tasks (q.produced phase) x
    else stop x

-- generateRequirementsPhase, generateDesignPhase and generatePlanTasks
unfoldable pub generate_requirements_phase : Request → Run → Run
generate_requirements_phase q x =
    make_phase q requirements requirements_review [] (q.produced requirements) x

unfoldable pub generate_design_phase : Request → Run → Run
generate_design_phase q x = make_from q requirements design design_review [] x

unfoldable pub generate_plan_tasks : Request → Run → Run
generate_plan_tasks q x = make_from q design plan plan_review q.planned x

-- normalizeAutonomousLaunchMode
unfoldable pub normalize_launch_mode : ExecutionPolicy → String → String
normalize_launch_mode policy given_mode =
    let mode = trim_space given_mode in
    if str_eq mode "manual"
    then mode
    else if allows_mode policy mode
    then mode
    else if str_eq policy.scope "orchestrator_remote"
    then "agent_remote"
    else "agent_local"

abbrev pub count_launched : Run → Run
count_launched x = record x { launched = suc x.launched }

abbrev pub enqueue_task : Option (String → Bool) → Option Task → Run → Run
enqueue_task queue none x = stop x
enqueue_task none (some t) x = count_launched x
enqueue_task (some accepts) (some t) x =
    if is_local t.execution_target then count_launched x else elim t.assigned_agent [
      | none ↦ count_launched x
      | some agent ↦
          if accepts t.id
          then count_launched (record x {
            enqueued =
                x.enqueued ++ record { task_id = t.id; agent = agent; priority = t.priority } ∷ [];
          })
          else stop x
    ]

abbrev pub with_db : Db → Run → Run
with_db db x = with_rows (record x.rows { db = db }) x

abbrev pub queue_generated : Option (String → Bool) → String → Result Db → Run → Run
queue_generated queue k (err e) x = stop x
queue_generated queue k (ok db) x = enqueue_task queue (get_task k db.tasks) (with_db db x)

abbrev pub launch_generated : Option (String → Bool) → String → String → ℕ → Result Db → Run → Run
launch_generated queue k mode now (err e) x = stop x
launch_generated queue k mode now (ok db) x =
    if str_eq mode "manual"
    then with_db db x
    else queue_generated queue k
        (queue_task_for_launch k "autonomous:initiative_launch" "Queued from autonomous initiative"
          now db)
        (with_db db x)

abbrev pub default_mode : String → String
default_mode mode = if is_empty mode then "agent_local" else mode

abbrev pub launch_in_mode :
    ExecutionPolicy → Option (String → Bool) → ℕ → LinkedTask → String → Run → Run
launch_in_mode policy queue now i mode x =
    if is_some (validate_task_launch_against_policy policy mode)
    then stop x
    else launch_generated queue i.link.task_id mode now
        (update_task_launch_mode i.link.task_id mode now x.rows.db)
        (with_rows (record x.rows { links = update_links i.link.task_id mode x.rows.links }) x)

-- The body of the loop of launchGeneratedTasks
unfoldable pub launch_one : ExecutionPolicy → Option (String → Bool) → ℕ → LinkedTask → Run → Run
launch_one policy queue now i x =
    launch_in_mode policy queue now i
      (normalize_launch_mode policy (default_mode (trim_space i.link.execution_mode))) x

unfoldable pub launch_each :
    ExecutionPolicy → Option (String → Bool) → ℕ → List LinkedTask → Run → Run
launch_each policy queue now [] x = x
launch_each policy queue now (i ∷ items) x =
    let next = launch_one policy queue now i x in
    let rest = launch_each policy queue now items next in if next.goes_on then rest else next

abbrev pub reconcile_run : Run → Run
reconcile_run x = if x.goes_on then with_rows (reconcile_initiative_execution x.rows) x else x

-- launchGeneratedTasks
unfoldable pub launch_generated_tasks : String → Option (String → Bool) → ℕ → Run → Run
launch_generated_tasks root queue now x = reconcile_run (
    launch_each (resolve_execution_policy root x.rows.item.workspace_root) queue now
      (list_initiative_tasks x.rows) x)

abbrev pub then_run : (Run → Run) → Run → Run
then_run step x = if x.goes_on then step x else x

-- advanceAndLaunch
unfoldable pub advance_and_launch : String → Option (String → Bool) → Request → Run → Run
advance_and_launch root queue q x = then_run (launch_generated_tasks root queue q.now) (
    then_run (generate_plan_tasks q)
      (then_run (generate_design_phase q) (generate_requirements_phase q x)))

-- StartFromChannel, for a goal that is not blank and the identifier that the new row gets.
unfoldable pub start_from_channel :
    String → Option (String → Bool) → Request → String → String → Db → Option Run
start_from_channel root queue q id workspace_root db =
    let own = trim_space workspace_root in
    let workspace = if is_empty own then trim_space root else own in
    if is_empty workspace
    then none
    else some (
        advance_and_launch root queue q (record {
          rows = create_initiative id workspace db;
          enqueued = [];
          launched = 0;
          goes_on = true;
        }))
