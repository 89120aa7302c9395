-- ===== src/Initiative/Governance/Launches.antt =====
-- Launches, and every sequence of requests.
use ia_lab.Prelude.{
  ℕ, ◌≡◌, ◌≢◌, refl, sym, ap, ◌∙◌, subst, String, Bool, true, Option, none, some, List, [], ◌∷◌,
  is_some, arith, Bool-cases, inl, inr, str_eq,
}
use ia_lab.Prelude.Json.{Fields}
use ia_lab.Task.Model.{Task, Db, Result, ok, err}
use ia_lab.Task.Store.Create.{update_task_launch_mode}
use ia_lab.Task.Store.{queue_task_for_launch}
use ia_lab.Initiative.Status.{
  InitiativeStatus, plan_review, conclude, Flags, derive_initiative_execution_status,
}
use ia_lab.Initiative.Contracts.{
  ExecutionPolicy, is_recognized_task_launch_mode, validate_task_launch_against_policy, is_nothing,
  resolve_execution_policy,
}
use ia_lab.Initiative.Model.{
  requirements, design, plan, PhaseArtifactIds, LinkedTask, Rows, update_initiative,
  create_initiative, list_initiative_tasks, reconcile_initiative_execution, reconcile_items,
  update_links,
}
use ia_lab.Initiative.Phases.{
  advance_initiative, resolve_initiative_phase, generate_initiative_tasks, PlannedTask,
}
use ia_lab.Initiative.Launch.{
  Launching, launching, is_ready, launch_task, launch_tasks, launch_initiative_tasks,
  queue_unless_manual, queue_launched, enqueue_remote, launch_mode, select_initiative_tasks,
  finish_launch,
}
use ia_lab.Initiative.Governance.{
  was_approved, Presupposes, Fits, IsGoverned, create-IsGoverned, advance-IsGoverned,
  resolve-IsGoverned, generate-IsGoverned,
}

-- What a launch leaves alone.
abbrev Same : Launching → Launching → Type 0
Same l m = (m.rows.item ≡ l.rows.item) × (m.rows.reviews ≡ l.rows.reviews)

enqueue_remote-Same :
    (redis : String → Bool) (t : Option Task) (l : Launching) → Same l (enqueue_remote redis t l)
enqueue_remote-Same redis none l = (refl, refl)
enqueue_remote-Same redis (some t) l = (ground arith, ground arith)

queue_launched-Same :
    (redis : String → Bool) (k : String) (res : Result Db) (l : Launching)
    → Same l (queue_launched redis k res l)
queue_launched-Same redis k (err e) l = (refl, refl)
queue_launched-Same redis k (ok db) l =
    enqueue_remote-Same redis _ (record l { rows = record l.rows { db = db } })

queue_unless_manual-Same :
    (redis : String → Bool) (k mode : String) (now : ℕ) (res : Result Db) (l : Launching)
    → Same l (queue_unless_manual redis k mode now res l)
queue_unless_manual-Same redis k mode now (err e) l = (refl, refl)
queue_unless_manual-Same redis k mode now (ok db) l = elim (Bool-cases (str_eq mode "manual")) [
  | inl manual ↦ rw manual (refl, refl)
  | inr agent ↦
      let moved = record l { rows = record l.rows { db = db } } in
      rw agent (
        queue_launched-Same redis k
          (queue_task_for_launch k "api:initiative_launch" "Queued from initiative launch" now db)
          moved)
]

launch_task-Same :
    (policy : ExecutionPolicy) (redis : String → Bool) (now : ℕ) (k mode : String) (l : Launching)
    → Same l (launch_task policy redis now k mode l)
unfolding launch_task
launch_task-Same policy redis now k mode l =
    elim (Bool-cases (is_recognized_task_launch_mode mode)) [
      | inr unknown ↦ rw unknown (refl, refl)
      | inl known ↦ elim (Bool-cases (is_some (validate_task_launch_against_policy policy mode))) [
        | inl barred ↦ rw (known, barred) (refl, refl)
        | inr allowed ↦
            let linked = record l.rows { links = update_links k mode l.rows.links } in
            rw (known, allowed)
              (queue_unless_manual-Same redis k mode now
                (update_task_launch_mode k mode now linked.db) (record l { rows = linked }))
      ]
    ]

launch_tasks-Same :
    (policy : ExecutionPolicy) (overrides : String → String) (redis : String → Bool) (now : ℕ)
    (items : List LinkedTask) (l : Launching)
    → Same l (launch_tasks policy overrides redis now items l)
unfolding launch_tasks
launch_tasks-Same policy overrides redis now [] l = (refl, refl)
launch_tasks-Same policy overrides redis now (i ∷ items) l =
    let next = launch_task policy redis now i.link.task_id (launch_mode overrides i) l in
    let first = launch_task-Same policy redis now i.link.task_id (launch_mode overrides i) l in
    let rest = launch_tasks-Same policy overrides redis now items next in
    elim (Bool-cases (is_some next.failure)) [
      | inl failed ↦ rw failed first
      | inr going ↦ rw going (rest.0 ∙ first.0, rest.1 ∙ first.1)
    ]

not_plan_review :
    (s : InitiativeStatus) (f : Flags) → is_ready s ≡ true → conclude s f ≢ plan_review
unfolding conclude
not_plan_review s f ready e = ground arith

reconcile_items-IsGoverned :
    (items : List LinkedTask) (r : Rows)
    → is_ready r.item.status ≡ true
    → IsGoverned r
    → IsGoverned (reconcile_items items r)
unfolding update_initiative derive_initiative_execution_status
reconcile_items-IsGoverned [] r ready g = g
reconcile_items-IsGoverned (i ∷ items) r ready g = record {
  presupposed = subst (λ p. Presupposes p r.reviews) (g.fitting.0 ready) g.presupposed;
  fitting = ((λ e. refl), λ e. absurd (not_plan_review r.item.status _ ready e));
}

finish_launch-IsGoverned :
    (failure : Option ℕ) (l : Launching)
    → is_ready l.rows.item.status ≡ true
    → IsGoverned l.rows
    → IsGoverned (finish_launch (record l { failure = failure })).0.rows
unfolding reconcile_initiative_execution
finish_launch-IsGoverned none l ready g = reconcile_items-IsGoverned _ l.rows ready g
finish_launch-IsGoverned (some code) l ready g = g

moved_rows : (l m : Launching) → Same l m → IsGoverned l.rows → IsGoverned m.rows
moved_rows l m same g = record {
  presupposed =
      subst (λ i. Presupposes i.current_phase m.rows.reviews) (sym same.0)
        (subst (λ vs. Presupposes l.rows.item.current_phase vs) (sym same.1) g.presupposed);
  fitting = subst (λ i. Fits i.status i.current_phase) (sym same.0) g.fitting;
}

launch-IsGoverned :
    (root : String) (task_ids groups : List String) (overrides : String → String)
    (redis : String → Bool) (now : ℕ) (r : Rows)
    → IsGoverned r
    → IsGoverned (launch_initiative_tasks root task_ids groups overrides redis now r).0.rows
unfolding launch_initiative_tasks
launch-IsGoverned root task_ids groups overrides redis now r g =
    let selected = select_initiative_tasks (list_initiative_tasks r) task_ids groups in
    let policy = resolve_execution_policy root r.item.workspace_root in
    let l = launch_tasks policy overrides redis now selected (launching r) in
    let same = launch_tasks-Same policy overrides redis now selected (launching r) in
    elim (Bool-cases (is_ready r.item.status)) [
      | inr unready ↦ rw unready g
      | inl ready ↦ elim (Bool-cases (is_nothing selected)) [
        | inl empty ↦ rw (ready, empty) g
        | inr picked ↦
            rw (ready, picked)
              (finish_launch-IsGoverned l.failure l (ap (λ i. is_ready i.status) same.0 ∙ ready)
                (moved_rows (launching r) l same g))
      ]
    ]

-- The requests on an initiative, but the change of a task's mode.
pub data Request : Type 0 where
  advance : (String → Option Fields) → String → Option PhaseArtifactIds → Request
  resolve : (String → Option Fields) → Bool → String → String → String → Request
  generate :
      (String → Option Fields) → String → Option PhaseArtifactIds → List PlannedTask → ℕ → Request
  launch : String → List String → List String → (String → String) → (String → Bool) → ℕ → Request

unfoldable pub serve : Request → Rows → Rows
serve (advance load feedback produced) r = (advance_initiative load feedback produced r).0
serve (resolve load approve phase feedback operator) r =
    (resolve_initiative_phase load approve phase feedback operator r).0
serve (generate load feedback produced tasks now) r =
    (generate_initiative_tasks load feedback produced tasks now r).0
serve (launch root task_ids groups overrides redis now) r =
    (launch_initiative_tasks root task_ids groups overrides redis now r).0.rows

unfoldable pub serve_all : List Request → Rows → Rows
unfolding serve
serve_all [] r = r
serve_all (q ∷ qs) r = serve_all qs (serve q r)

serve-IsGoverned : (q : Request) (r : Rows) → IsGoverned r → IsGoverned (serve q r)
unfolding serve
serve-IsGoverned (advance load feedback produced) r g =
    advance-IsGoverned load feedback produced r g
serve-IsGoverned (resolve load approve phase feedback operator) r g =
    resolve-IsGoverned load approve phase feedback operator r g
serve-IsGoverned (generate load feedback produced tasks now) r g =
    generate-IsGoverned load feedback produced tasks now r g
serve-IsGoverned (launch root task_ids groups overrides redis now) r g =
    launch-IsGoverned root task_ids groups overrides redis now r g

serve_all-IsGoverned : (qs : List Request) (r : Rows) → IsGoverned r → IsGoverned (serve_all qs r)
unfolding serve_all
serve_all-IsGoverned [] r g = g
serve_all-IsGoverned (q ∷ qs) r g = serve_all-IsGoverned qs (serve q r) (serve-IsGoverned q r g)

-- After any requests to advance, approve, reject, generate tasks and launch, from a new
-- initiative, and if its status is then one that can be launched, its requirements, its design
-- and its plan have each been approved.
pub serve_all_approved :
    (qs : List Request) (id root : String) (db : Db)
    → is_ready (serve_all qs (create_initiative id root db)).item.status ≡ true
    → let r = serve_all qs (create_initiative id root db) in
      (was_approved requirements r.reviews ≡ true)
      × (was_approved design r.reviews ≡ true)
      × (was_approved plan r.reviews ≡ true)
serve_all_approved qs id root db ready =
    let g = serve_all-IsGoverned qs (create_initiative id root db) (create-IsGoverned id root db) in
    subst (λ p. Presupposes p (serve_all qs (create_initiative id root db)).reviews)
      (g.fitting.0 ready) g.presupposed
