-- ===== src/Initiative/Model.antt =====
-- The rows of an initiative: domain/initiative.go and store/initiatives.go. Its tasks are rows of the
-- task store; a query that joins them is `list_initiative_tasks`.
use Prim.Native.String.{compare}
use Prim.Native.Nat.{Ordering}
use ia_lab.Prelude.{
  ℕ, String, Bool, true, false, ◌&&◌, ◌||◌, Option, none, some, List, [], ◌∷◌, ltb, ◌==◌, str_eq,
  trim_space, stable_sort, map, if◌then◌else◌,
}
use ia_lab.Task.Model.{Task, Db, get_task}
use ia_lab.Initiative.Status.{
  InitiativeStatus, idea_submitted, TaskLink, derive_initiative_execution_status,
}

pub data InitiativePhase : Type 0 where
  requirements design plan execution : InitiativePhase

pub data ReviewDecision : Type 0 where
  generated approved rejected : ReviewDecision

abbrev pub phase_eq : InitiativePhase → InitiativePhase → Bool
phase_eq requirements requirements = true
phase_eq design design = true
phase_eq plan plan = true
phase_eq execution execution = true
phase_eq _ _ = false

-- The phase that a trimmed text names; IsRecognizedInitiativePhase asks for one.
abbrev pub phase_of_text : String → Option InitiativePhase
phase_of_text text =
    let name = trim_space text in
    if str_eq name "requirements"
    then some requirements
    else if str_eq name "design"
    then some design
    else if str_eq name "plan"
    then some plan
    else if str_eq name "execution"
    then some execution
    else none

pub record PhaseArtifactIds : Type 0 where
  pub markdown_id : Option String
  pub json_id : Option String

pub record Review : Type 0 where
  pub phase : InitiativePhase
  pub decision : ReviewDecision
  pub feedback : Option String
  pub generated_by : String
  pub artifacts : PhaseArtifactIds

pub record Initiative : Type 0 where
  pub id : String
  pub workspace_root : String
  pub status : InitiativeStatus
  pub current_phase : InitiativePhase
  pub active_requirements_artifact_id : Option String
  pub active_design_artifact_id : Option String
  pub active_plan_artifact_id : Option String
  pub archived_at : Option ℕ

-- A row of initiative_task_links.
pub record Link : Type 0 where
  pub task_id : String
  pub epic : Option String
  pub launch_group : Option String
  pub execution_mode : String
  pub launch_order : ℕ

-- The rows of one initiative beside those of the tasks. The newest review comes first.
pub record Rows : Type 0 where
  pub item : Initiative
  pub reviews : List Review
  pub links : List Link
  pub db : Db

pub record UpdateInitiativeParams : Type 0 where
  pub status : Option InitiativeStatus
  pub current_phase : Option InitiativePhase
  pub active_requirements_artifact_id : Option String
  pub active_design_artifact_id : Option String
  pub active_plan_artifact_id : Option String
  pub archived_at : Option ℕ

-- COALESCE(new, old)
abbrev pub coalesce {ℓ} : {A : Type ℓ} → Option A → A → A
coalesce none old = old
coalesce (some new) old = new

abbrev pub coalesce_null {ℓ} : {A : Type ℓ} → Option A → Option A → Option A
coalesce_null none old = old
coalesce_null (some new) old = some new

-- UpdateInitiative; `archived_at` is written as given, NULL too.
unfoldable pub update_initiative : UpdateInitiativeParams → Initiative → Initiative
update_initiative p i = record i {
  status = coalesce p.status i.status;
  current_phase = coalesce p.current_phase i.current_phase;
  active_requirements_artifact_id =
      coalesce_null p.active_requirements_artifact_id i.active_requirements_artifact_id;
  active_design_artifact_id = coalesce_null p.active_design_artifact_id i.active_design_artifact_id;
  active_plan_artifact_id = coalesce_null p.active_plan_artifact_id i.active_plan_artifact_id;
  archived_at = p.archived_at;
}

abbrev pub no_update : UpdateInitiativeParams
no_update = record {
  status = none;
  current_phase = none;
  active_requirements_artifact_id = none;
  active_design_artifact_id = none;
  active_plan_artifact_id = none;
  archived_at = none;
}

-- CreateInitiative
unfoldable pub create_initiative : String → String → Db → Rows
create_initiative id workspace_root db = record {
  item = record {
    id = id;
    workspace_root = workspace_root;
    status = idea_submitted;
    current_phase = requirements;
    active_requirements_artifact_id = none;
    active_design_artifact_id = none;
    active_plan_artifact_id = none;
    archived_at = none;
  };
  reviews = [];
  links = [];
  db = db;
}

-- A link with the row of its task.
pub record LinkedTask : Type 0 where
  pub link : Link
  pub task : Task

abbrev pub add_linked : Link → Option Task → List LinkedTask → List LinkedTask
add_linked l none rest = rest
add_linked l (some t) rest = record { link = l; task = t } ∷ rest

abbrev pub join_tasks : List Link → Db → List LinkedTask
join_tasks [] db = []
join_tasks (l ∷ ls) db = add_linked l (get_task l.task_id db.tasks) (join_tasks ls db)

abbrev text_lt : String → String → Bool
text_lt a b = elim (compare a b) [ Ordering.lt ↦ true | _ ↦ false ]

-- ORDER BY l.launch_order ASC, t.created_at ASC, t.id ASC
abbrev pub launches_before : LinkedTask → LinkedTask → Bool
launches_before a b =
    ltb a.link.launch_order b.link.launch_order
    || (a.link.launch_order == b.link.launch_order
        && (ltb a.task.created_at b.task.created_at
            || (a.task.created_at == b.task.created_at && text_lt a.task.id b.task.id)))

unfoldable pub list_initiative_tasks : Rows → List LinkedTask
list_initiative_tasks r = stable_sort launches_before (join_tasks r.links r.db)

abbrev pub status_item : LinkedTask → TaskLink
status_item l = record { execution_mode = l.link.execution_mode; task = l.task }

abbrev pub reconcile_items : List LinkedTask → Rows → Rows
reconcile_items [] r = r
reconcile_items (i ∷ items) r = record r {
  item =
      update_initiative
        (record no_update {
          status =
              some (derive_initiative_execution_status r.item.status (map status_item (i ∷ items)));
          current_phase = some execution;
        })
        r.item;
}

-- ReconcileInitiativeExecution
unfoldable pub reconcile_initiative_execution : Rows → Rows
reconcile_initiative_execution r = reconcile_items (list_initiative_tasks r) r

-- UpdateInitiativeTaskMode
abbrev pub update_links : String → String → List Link → List Link
update_links k mode [] = []
update_links k mode (l ∷ ls) =
    let rest = update_links k mode ls in
    if str_eq l.task_id k then record l { execution_mode = mode } ∷ rest else l ∷ rest

-- LinkInitiativeTask: the insertion, or the update of the row that is there.
abbrev pub put_link : Link → List Link → List Link
put_link l [] = l ∷ []
put_link l (m ∷ ms) =
    let rest = put_link l ms in if str_eq m.task_id l.task_id then l ∷ ms else m ∷ rest
