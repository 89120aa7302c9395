-- ===== src/Initiative/Autonomous/Laws.antt =====
-- Which phases an autonomous run approves.
use ia_lab.Prelude.{
  ℕ, ◌+◌, ◌≡◌, ◌≢◌, refl, sym, ap, subst, ◌∙◌, String, Bool, true, false, not, ◌&&◌, ◌||◌, Option,
  none, some, List, [], ◌∷◌, is_some, Bool-cases, inl, inr, if◌then◌else◌, if_true, if_false, arith,
  str_eq,
}
use ia_lab.Task.Model.{Task, Db, Result, ok, err, get_task}
use ia_lab.Initiative.Status.{InitiativeStatus}
use ia_lab.Initiative.Contracts.{ExecutionPolicy, validate_task_launch_against_policy}
use ia_lab.Initiative.Model.{
  InitiativePhase, requirements, design, plan, execution, phase_eq, PhaseArtifactIds, Rows,
  LinkedTask, list_initiative_tasks, reconcile_initiative_execution,
}
use ia_lab.Initiative.Phases.{PlannedTask, materialize, load_active, active_artifact_id}
use ia_lab.Initiative.Launch.Laws.{reconcile_items-lists, reconcile_items-moves}
use ia_lab.Initiative.Governance.{was_approved}
use ia_lab.Initiative.Autonomous.{
  Run, Request, with_rows, make_phase, make_from, approve_if, save_phase,
  generate_requirements_phase, generate_design_phase, generate_plan_tasks, enqueue_task,
  queue_generated, launch_generated, launch_in_mode, launch_one, launch_each, reconcile_run,
  launch_generated_tasks, then_run, advance_and_launch,
}

reviews-materialize :
    (order now : ℕ) (tasks : List PlannedTask) (r : Rows)
    → (materialize order now tasks r).reviews ≡ r.reviews
unfolding materialize
reviews-materialize order now [] r = refl
reviews-materialize order now (t ∷ ts) r = reviews-materialize (order + 10) now ts _

approve_if-approved :
    (auto : Bool) (phase : InitiativePhase) (operator : String) (x : Run) (p : InitiativePhase)
    → (approve_if auto phase operator x).goes_on ≡ true
    → was_approved p (approve_if auto phase operator x).rows.reviews
      ≡ ((auto && phase_eq phase p) || was_approved p x.rows.reviews)
approve_if-approved false phase operator x p on = refl
approve_if-approved true requirements operator x p on = ground arith
approve_if-approved true design operator x p on = ground arith
approve_if-approved true plan operator x p on = ground arith
approve_if-approved true execution operator x p on = cc on

save_phase-approved :
    (phase : InitiativePhase) (status : InitiativeStatus) (ids : PhaseArtifactIds) (r : Rows)
    (p : InitiativePhase)
    → was_approved p (save_phase phase status ids r).reviews ≡ was_approved p r.reviews
save_phase-approved phase status ids r p = ground arith

-- A phase that was made is approved if the request says so; the others are as before.
make_phase-approved :
    (q : Request) (phase : InitiativePhase) (status : InitiativeStatus) (tasks : List PlannedTask)
    (ids : Option PhaseArtifactIds) (x : Run) (p : InitiativePhase)
    → (make_phase q phase status tasks ids x).goes_on ≡ true
    → was_approved p (make_phase q phase status tasks ids x).rows.reviews
      ≡ ((q.auto_approve_phases && phase_eq phase p) || was_approved p x.rows.reviews)
make_phase-approved q phase status tasks none x p on = cc on
make_phase-approved q phase status tasks (some ids) x p on =
    approve_if-approved q.auto_approve_phases phase q.operator_id _ p on
    ∙ ap (λ b. (q.auto_approve_phases && phase_eq phase p) || b)
        (ap (was_approved p)
            (reviews-materialize 10 q.now tasks (save_phase phase status ids x.rows))
          ∙ save_phase-approved phase status ids x.rows p)

make_from-approved :
    (q : Request) (before phase : InitiativePhase) (status : InitiativeStatus)
    (tasks : List PlannedTask) (x : Run) (p : InitiativePhase)
    → (make_from q before phase status tasks x).goes_on ≡ true
    → was_approved p (make_from q before phase status tasks x).rows.reviews
      ≡ ((q.auto_approve_phases && phase_eq phase p) || was_approved p x.rows.reviews)
make_from-approved q before phase status tasks x p on =
    elim (Bool-cases (is_some (load_active q.load (active_artifact_id x.rows.item before)))) [
      | inl loaded ↦
          rw loaded
            (make_phase-approved q phase status tasks (q.produced phase) x p (rw loaded at on))
      | inr missing ↦ cc (rw missing at on)
    ]

-- The launch writes no review.
enqueue_task-reviews :
    (queue : Option (String → Bool)) (t : Option Task) (x : Run)
    → (enqueue_task queue t x).rows.reviews ≡ x.rows.reviews
enqueue_task-reviews queue none x = refl
enqueue_task-reviews none (some t) x = refl
enqueue_task-reviews (some accepts) (some t) x = ground arith

queue_generated-reviews :
    (queue : Option (String → Bool)) (k : String) (res : Result Db) (x : Run)
    → (queue_generated queue k res x).rows.reviews ≡ x.rows.reviews
queue_generated-reviews queue k (err e) x = refl
queue_generated-reviews queue k (ok db) x = enqueue_task-reviews queue (get_task k db.tasks) _

launch_generated-reviews :
    (queue : Option (String → Bool)) (k mode : String) (now : ℕ) (res : Result Db) (x : Run)
    → (launch_generated queue k mode now res x).rows.reviews ≡ x.rows.reviews
launch_generated-reviews queue k mode now (err e) x = refl
launch_generated-reviews queue k mode now (ok db) x = elim (Bool-cases (str_eq mode "manual")) [
  | inl manual ↦ rw manual
  | inr other ↦ rw other (queue_generated-reviews queue k _ _)
]

launch_in_mode-reviews :
    (policy : ExecutionPolicy) (queue : Option (String → Bool)) (now : ℕ) (i : LinkedTask)
    (mode : String) (x : Run)
    → (launch_in_mode policy queue now i mode x).rows.reviews ≡ x.rows.reviews
launch_in_mode-reviews policy queue now i mode x =
    elim (Bool-cases (is_some (validate_task_launch_against_policy policy mode))) [
      | inl refused ↦ rw refused
      | inr allowed ↦ rw allowed (launch_generated-reviews queue i.link.task_id mode now _ _)
    ]

launch_one-reviews :
    (policy : ExecutionPolicy) (queue : Option (String → Bool)) (now : ℕ) (i : LinkedTask) (x : Run)
    → (launch_one policy queue now i x).rows.reviews ≡ x.rows.reviews
unfolding launch_one
launch_one-reviews policy queue now i x = launch_in_mode-reviews policy queue now i _ x

launch_each-reviews :
    (policy : ExecutionPolicy) (queue : Option (String → Bool)) (now : ℕ) (items : List LinkedTask)
    (x : Run)
    → (launch_each policy queue now items x).rows.reviews ≡ x.rows.reviews
unfolding launch_each
launch_each-reviews policy queue now [] x = refl
launch_each-reviews policy queue now (i ∷ items) x =
    let one = launch_one-reviews policy queue now i x in
    let rest = launch_each-reviews policy queue now items (launch_one policy queue now i x) in
    choice (launch_one policy queue now i x).goes_on
      (launch_each policy queue now items (launch_one policy queue now i x))
      (launch_one policy queue now i x) (rest ∙ one) one
  where
    choice :
        (b : Bool) (y z : Run)
        → y.rows.reviews ≡ x.rows.reviews
        → z.rows.reviews ≡ x.rows.reviews
        → (if b then y else z).rows.reviews ≡ x.rows.reviews
    choice true y z e f = e
    choice false y z e f = f

-- A run that goes on has been reconciled, with the reviews as they were.
reconcile_run-on :
    (x : Run)
    → (reconcile_run x).goes_on ≡ true
    → list_initiative_tasks (reconcile_run x).rows ≢ []
    → ((reconcile_run x).rows.item.current_phase ≡ execution)
      × ((reconcile_run x).rows.reviews ≡ x.rows.reviews)
unfolding reconcile_initiative_execution
reconcile_run-on x on tasks = elim (Bool-cases x.goes_on) [
  | inr ended ↦ cc (
    ap (λ y. y.goes_on)
        (if_false x.goes_on (with_rows (reconcile_initiative_execution x.rows) x) x ended),
    ended,
    on,
  )
  | inl going ↦
      let moved : reconcile_run x ≡ with_rows (reconcile_initiative_execution x.rows) x =
        if_true x.goes_on (with_rows (reconcile_initiative_execution x.rows) x) x going in
      let listed : list_initiative_tasks (reconcile_run x).rows ≡ list_initiative_tasks x.rows =
        ap (λ y. list_initiative_tasks y.rows) moved
        ∙ reconcile_items-lists (list_initiative_tasks x.rows) x.rows in
      subst (λ y. (y.rows.item.current_phase ≡ execution) × (y.rows.reviews ≡ x.rows.reviews))
        (sym moved)
        (reconcile_items-moves (list_initiative_tasks x.rows) x.rows
          (λ nothing. tasks (listed ∙ nothing)))
]

then_run-on :
    (step : Run → Run) (x : Run)
    → (then_run step x).goes_on ≡ true
    → (x.goes_on ≡ true) × (then_run step x ≡ step x)
then_run-on step x on = elim (Bool-cases x.goes_on) [
  | inl e ↦ (e, if_true x.goes_on (step x) x e)
  | inr e ↦ cc (ap (λ y. y.goes_on) (if_false x.goes_on (step x) x e), e, on)
]

launch_generated_tasks-on :
    (root : String) (queue : Option (String → Bool)) (now : ℕ) (x : Run)
    → (launch_generated_tasks root queue now x).goes_on ≡ true
    → list_initiative_tasks (launch_generated_tasks root queue now x).rows ≢ []
    → ((launch_generated_tasks root queue now x).rows.item.current_phase ≡ execution)
      × ((launch_generated_tasks root queue now x).rows.reviews ≡ x.rows.reviews)
unfolding launch_generated_tasks
launch_generated_tasks-on root queue now x on tasks =
    let (moved, kept) = reconcile_run-on _ on tasks in
    (moved, kept ∙ launch_each-reviews _ queue now (list_initiative_tasks x.rows) x)

all_phases :
    (auto : Bool) (p : InitiativePhase)
    → ((auto && phase_eq plan p)
        || ((auto && phase_eq design p) || ((auto && phase_eq requirements p) || false)))
      ≡ (auto && not (phase_eq execution p))
all_phases false p = refl
all_phases true requirements = refl
all_phases true design = refl
all_phases true plan = refl
all_phases true execution = refl

-- The three phases before the launch.
phases-approved :
    (q : Request) (x : Run) (p : InitiativePhase)
    → x.rows.reviews ≡ []
    → (then_run
        (generate_plan_tasks q)
        (then_run (generate_design_phase q) (generate_requirements_phase q x))).goes_on
      ≡ true
    → was_approved p
        (then_run
          (generate_plan_tasks q)
          (then_run (generate_design_phase q) (generate_requirements_phase q x))).rows.reviews
      ≡ (q.auto_approve_phases && not (phase_eq execution p))
unfolding generate_requirements_phase generate_design_phase generate_plan_tasks
phases-approved q x p new on =
    let auto : Bool = q.auto_approve_phases in
    let first : Run = generate_requirements_phase q x in
    let second : Run = then_run (generate_design_phase q) first in
    let (on2, planned) = then_run-on (generate_plan_tasks q) second on in
    let (on1, designed) = then_run-on (generate_design_phase q) first on2 in
    let required = make_phase-approved q requirements _ [] (q.produced requirements) x p on1 in
    let made =
      make_from-approved q requirements design _ [] first p
        (ap (λ y. y.goes_on) (sym designed) ∙ on2) in
    let last =
      make_from-approved q design plan _ q.planned second p
        (ap (λ y. y.goes_on) (sym planned) ∙ on) in
    ap (λ y. was_approved p y.rows.reviews) planned
    ∙ last
    ∙ ap (λ b. (auto && phase_eq plan p) || b)
        (ap (λ y. was_approved p y.rows.reviews) designed
          ∙ made
          ∙ ap (λ b. (auto && phase_eq design p) || b)
              (required ∙ ap (λ l. (auto && phase_eq requirements p) || was_approved p l) new))
    ∙ all_phases auto p

-- An autonomous run over an initiative without reviews that ends without an error and leaves
-- it with tasks puts it in the execution phase, and each phase before the execution has been
-- approved exactly if the request asks for phases to be approved.
pub advance_and_launch-approved :
    (root : String) (queue : Option (String → Bool)) (q : Request) (x : Run) (p : InitiativePhase)
    → x.rows.reviews ≡ []
    → (advance_and_launch root queue q x).goes_on ≡ true
    → list_initiative_tasks (advance_and_launch root queue q x).rows ≢ []
    → ((advance_and_launch root queue q x).rows.item.current_phase ≡ execution)
      × (was_approved p (advance_and_launch root queue q x).rows.reviews
          ≡ (q.auto_approve_phases && not (phase_eq execution p)))
unfolding advance_and_launch
advance_and_launch-approved root queue q x p new on tasks =
    let before : Run =
      then_run (generate_plan_tasks q)
        (then_run (generate_design_phase q) (generate_requirements_phase q x)) in
    let (going, launched) = then_run-on (launch_generated_tasks root queue q.now) before on in
    let (moved, kept) =
      launch_generated_tasks-on root queue q.now before (ap (λ y. y.goes_on) (sym launched) ∙ on)
        (λ nothing. tasks (ap (λ y. list_initiative_tasks y.rows) launched ∙ nothing)) in
    (
      ap (λ y. y.rows.item.current_phase) launched ∙ moved,
      ap (λ y. was_approved p y.rows.reviews) launched
          ∙ ap (was_approved p) kept
          ∙ phases-approved q x p new going,
    )
