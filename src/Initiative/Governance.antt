-- ===== src/Initiative/Governance.antt =====
-- The approvals behind the phase that an initiative is in.
pub mod Launches
use ia_lab.Prelude.{
  ℕ, ◌+◌, ◌≡◌, ◌≢◌, refl, sym, ap, ◌∙◌, subst, String, Bool, true, false, not, ◌&&◌, ◌||◌, Option,
  none, some, List, [], ◌∷◌, any, is_some, is_blank, arith, Bool-cases, Option-cases, inl, inr,
  if◌then◌else◌, trim_space, find, str_eq,
}
use ia_lab.Prelude.Json.{Fields}
use ia_lab.Task.Model.{Db, Result, ok, err}
use ia_lab.Task.Store.Create.{update_task_launch_mode}
use ia_lab.Task.Store.{queue_task_for_launch}
use ia_lab.Initiative.Status.{InitiativeStatus, execution_ready, plan_draft, plan_review}
use ia_lab.Initiative.Contracts.{ExecutionPolicy}
use ia_lab.Initiative.Model.{
  InitiativePhase, requirements, design, plan, execution, phase_eq, ReviewDecision, approved,
  PhaseArtifactIds, phase_of_text, Review, Initiative, Link, LinkedTask, Rows, update_initiative,
  create_initiative, list_initiative_tasks, reconcile_initiative_execution, reconcile_items,
}
use ia_lab.Initiative.Phases.{
  Response, done, refused, add_review, advance_initiative, resolve_initiative_phase,
  generate_initiative_tasks, materialize, PlannedTask, resolve_loaded, advance_at, no_tasks,
  validate_phase_artifact_payload, load_active, active_artifact_id, status_is_plan_draft,
  status_is_plan_review, generate_backlog, resolve_recognized, move_to, next_of, decision_review,
  save_generated, generate_phase,
}
use ia_lab.Initiative.Launch.{
  Launching, launching, is_ready, launch_task, launch_tasks, launch_initiative_tasks,
  update_initiative_task_mode, queue_unless_manual, queue_launched, enqueue_remote, launch_mode,
}

abbrev is_approval : InitiativePhase → Review → Bool
is_approval phase v = phase_eq v.phase phase && (elim v.decision [ approved ↦ true | _ ↦ false ])

abbrev pub was_approved : InitiativePhase → List Review → Bool
was_approved phase reviews = any (is_approval phase) reviews

-- What a phase presupposes.
abbrev pub Presupposes : InitiativePhase → List Review → Type 0
Presupposes requirements vs = Unit
Presupposes design vs = was_approved requirements vs ≡ true
Presupposes plan vs = (was_approved requirements vs ≡ true) × (was_approved design vs ≡ true)
Presupposes execution vs =
    (was_approved requirements vs ≡ true)
    × (was_approved design vs ≡ true)
    × (was_approved plan vs ≡ true)

-- The phase that a status belongs to, where that matters.
abbrev pub Fits : InitiativeStatus → InitiativePhase → Type 0
Fits status phase =
    (is_ready status ≡ true → phase ≡ execution) × (status ≡ plan_review → phase ≡ plan)

pub record IsGoverned (r : Rows) : Type 0 where
  pub presupposed : Presupposes r.item.current_phase r.reviews
  pub fitting : Fits r.item.status r.item.current_phase

Presupposes-cons :
    (phase : InitiativePhase) (v : Review) (vs : List Review)
    → Presupposes phase vs
    → Presupposes phase (v ∷ vs)
Presupposes-cons requirements v vs h = tt
Presupposes-cons design v vs h = ground arith
Presupposes-cons plan v vs h = (ground arith, ground arith)
Presupposes-cons execution v vs h = (ground arith, ground arith, ground arith)

pub create-IsGoverned : (id root : String) (db : Db) → IsGoverned (create_initiative id root db)
unfolding create_initiative
create-IsGoverned id root db = record { presupposed = tt; fitting = ((λ e. cc), λ e. cc) }

save_generated-IsGoverned :
    (phase : InitiativePhase) (status : InitiativeStatus) (feedback : String)
    (ids : PhaseArtifactIds) (r : Rows)
    → Presupposes phase r.reviews
    → Fits status phase
    → IsGoverned (save_generated phase status feedback ids r)
unfolding update_initiative
save_generated-IsGoverned requirements status feedback ids r h k = record {
  presupposed = tt;
  fitting = k;
}
save_generated-IsGoverned design status feedback ids r h k = record {
  presupposed = ground arith;
  fitting = k;
}
save_generated-IsGoverned plan status feedback ids r h k = record {
  presupposed = (ground arith, ground arith);
  fitting = k;
}
save_generated-IsGoverned execution status feedback ids r h k = record {
  presupposed = (ground arith, ground arith, ground arith);
  fitting = k;
}

generate_phase-IsGoverned :
    (phase : InitiativePhase) (status : InitiativeStatus) (feedback : String)
    (produced : Option PhaseArtifactIds) (r : Rows)
    → Presupposes phase r.reviews
    → Fits status phase
    → IsGoverned r
    → IsGoverned (generate_phase phase status feedback produced r).0
generate_phase-IsGoverned phase status feedback none r h k g = g
generate_phase-IsGoverned phase status feedback (some ids) r h k g =
    save_generated-IsGoverned phase status feedback ids r h k

pub if-IsGoverned :
    (b : Bool) (x y : Rows × Response)
    → IsGoverned x.0
    → IsGoverned y.0
    → IsGoverned (if b then x else y).0
if-IsGoverned true x y h k = h
if-IsGoverned false x y h k = k

advance_at-IsGoverned :
    (phase : InitiativePhase) (load : String → Option Fields) (feedback : String)
    (produced : Option PhaseArtifactIds) (r : Rows)
    → Presupposes phase r.reviews
    → IsGoverned r
    → IsGoverned (advance_at phase load feedback produced r).0
advance_at-IsGoverned requirements load feedback produced r h g =
    generate_phase-IsGoverned requirements _ feedback produced r h ((λ e. cc), λ e. cc) g
advance_at-IsGoverned design load feedback produced r h g =
    if-IsGoverned _ _ _
      (generate_phase-IsGoverned design _ feedback produced r h ((λ e. cc), λ e. cc) g) g
advance_at-IsGoverned plan load feedback produced r h g = g
advance_at-IsGoverned execution load feedback produced r h g = g

pub advance-IsGoverned :
    (load : String → Option Fields) (feedback : String) (produced : Option PhaseArtifactIds)
    (r : Rows)
    → IsGoverned r
    → IsGoverned (advance_initiative load feedback produced r).0
unfolding advance_initiative
advance-IsGoverned load feedback produced r g =
    advance_at-IsGoverned r.item.current_phase load feedback produced r g.presupposed g

-- The review that a decision adds, at the phase that it is about.
moved-IsGoverned :
    (approve : Bool) (phase : InitiativePhase) (feedback operator : String) (r : Rows)
    → Presupposes phase r.reviews
    → IsGoverned r
    → IsGoverned
        (move_to
          (next_of approve phase)
          (add_review (decision_review approve phase feedback operator r) r)).0
unfolding update_initiative
moved-IsGoverned true requirements feedback operator r h g = record {
  presupposed = refl;
  fitting = ((λ e. cc), λ e. cc);
}
moved-IsGoverned true design feedback operator r h g = record {
  presupposed = (h, refl);
  fitting = ((λ e. cc), λ e. cc);
}
moved-IsGoverned true plan feedback operator r h g = record {
  presupposed = (h.0, h.1, refl);
  fitting = ((λ e. refl), λ e. cc);
}
moved-IsGoverned false requirements feedback operator r h g = record {
  presupposed = tt;
  fitting = ((λ e. cc), λ e. cc);
}
moved-IsGoverned false design feedback operator r h g = record {
  presupposed = h;
  fitting = ((λ e. cc), λ e. cc);
}
moved-IsGoverned false plan feedback operator r h g = record {
  presupposed = h;
  fitting = ((λ e. cc), λ e. cc);
}
moved-IsGoverned true execution feedback operator r h g = record {
  presupposed = Presupposes-cons r.item.current_phase _ r.reviews g.presupposed;
  fitting = g.fitting;
}
moved-IsGoverned false execution feedback operator r h g = record {
  presupposed = Presupposes-cons r.item.current_phase _ r.reviews g.presupposed;
  fitting = g.fitting;
}

resolve_loaded-IsGoverned :
    (approve : Bool) (phase : InitiativePhase) (feedback operator : String)
    (payload : Option Fields) (r : Rows)
    → Presupposes phase r.reviews
    → IsGoverned r
    → IsGoverned (resolve_loaded approve phase feedback operator payload r).0
resolve_loaded-IsGoverned approve phase feedback operator none r h g = g
resolve_loaded-IsGoverned approve phase feedback operator (some payload) r h g =
    let moved =
      move_to (next_of approve phase)
        (add_review (decision_review approve phase feedback operator r) r) in
    let untasked = approve && phase_eq phase plan && no_tasks r in
    if-IsGoverned (is_some (validate_phase_artifact_payload phase payload)) (r, refused 409)
      (if untasked then (r, refused 409) else moved) g
      (if-IsGoverned untasked (r, refused 409) moved g
        (moved-IsGoverned approve phase feedback operator r h g))

phase_eq_sound : (a b : InitiativePhase) → phase_eq a b ≡ true → a ≡ b
phase_eq_sound a b h = ground arith

-- The guard lets a decision through on the current phase only.
guarded :
    (phase : InitiativePhase) (r : Rows)
    → IsGoverned r
    → (not (phase_eq r.item.current_phase phase)
        && not (phase_eq phase plan && status_is_plan_review r.item.status))
      ≡ false
    → r.item.current_phase ≡ phase
guarded phase r g h = elim (Bool-cases (phase_eq r.item.current_phase phase)) [
  | inl same ↦ phase_eq_sound r.item.current_phase phase same
  | inr other ↦
      let in_review : status_is_plan_review r.item.status ≡ true = ground arith in
      let at_plan : phase ≡ plan = phase_eq_sound phase plan (ground arith) in
      g.fitting.1 (plan_review_status r.item.status in_review) ∙ sym at_plan
]
  where
    plan_review_status : (s : InitiativeStatus) → status_is_plan_review s ≡ true → s ≡ plan_review
    plan_review_status s e = ground arith

resolve_recognized-IsGoverned :
    (load : String → Option Fields) (approve : Bool) (phase : Option InitiativePhase)
    (feedback operator : String) (r : Rows)
    → IsGoverned r
    → IsGoverned (resolve_recognized load approve phase feedback operator r).0
resolve_recognized-IsGoverned load approve none feedback operator r g = g
resolve_recognized-IsGoverned load approve (some phase) feedback operator r g =
    let mismatch =
      not (phase_eq r.item.current_phase phase)
      && not (phase_eq phase plan && status_is_plan_review r.item.status) in
    elim (Bool-cases mismatch) [
      | inl bad ↦ rw bad g
      | inr good ↦ rw good (
          resolve_loaded-IsGoverned approve phase feedback operator
            (load_active load (active_artifact_id r.item phase)) r
            (subst (λ p. Presupposes p r.reviews) (guarded phase r g good) g.presupposed) g)
    ]

pub resolve-IsGoverned :
    (load : String → Option Fields) (approve : Bool) (phase_text feedback operator : String)
    (r : Rows)
    → IsGoverned r
    → IsGoverned (resolve_initiative_phase load approve phase_text feedback operator r).0
unfolding resolve_initiative_phase
resolve-IsGoverned load approve phase_text feedback operator r g =
    resolve_recognized-IsGoverned load approve (phase_of_text phase_text) feedback operator r g

-- The rows of tasks and links are no part of what is governed.
materialize-IsGoverned :
    (order now : ℕ) (ts : List PlannedTask) (r : Rows)
    → IsGoverned r
    → IsGoverned (materialize order now ts r)
unfolding materialize
materialize-IsGoverned order now [] r g = g
materialize-IsGoverned order now (t ∷ ts) r g =
    materialize-IsGoverned (order + 10) now ts _
      (record { presupposed = g.presupposed; fitting = g.fitting })

generate_backlog-IsGoverned :
    (feedback : String) (produced : Option PhaseArtifactIds) (tasks : List PlannedTask) (now : ℕ)
    (r : Rows)
    → r.item.current_phase ≡ plan
    → IsGoverned r
    → IsGoverned (generate_backlog feedback produced tasks now r).0
generate_backlog-IsGoverned feedback none tasks now r at_plan g = g
generate_backlog-IsGoverned feedback (some ids) tasks now r at_plan g =
    materialize-IsGoverned 10 now tasks _ (
      save_generated-IsGoverned plan plan_review feedback ids r
        (subst (λ p. Presupposes p r.reviews) at_plan g.presupposed) ((λ e. cc), λ e. refl))

pub generate-IsGoverned :
    (load : String → Option Fields) (feedback : String) (produced : Option PhaseArtifactIds)
    (tasks : List PlannedTask) (now : ℕ) (r : Rows)
    → IsGoverned r
    → IsGoverned (generate_initiative_tasks load feedback produced tasks now r).0
unfolding generate_initiative_tasks
generate-IsGoverned load feedback produced tasks now r g =
    let unready =
      not (status_is_plan_draft r.item.status) || not (phase_eq r.item.current_phase plan) in
    elim (Bool-cases unready) [
      | inl bad ↦ rw bad g
      | inr good ↦
          let at_plan : r.item.current_phase ≡ plan =
            phase_eq_sound r.item.current_phase plan (ground arith) in
          rw good (
            if-IsGoverned (is_some (load_active load r.item.active_design_artifact_id))
              (generate_backlog feedback produced tasks now r) (r, refused 400)
              (generate_backlog-IsGoverned feedback produced tasks now r at_plan g) g)
    ]
