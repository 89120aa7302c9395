-- ===== src/Initiative/Contracts/Laws.antt =====
-- The contract of an execution plan, described without the loops.
use ia_lab.Prelude.{
  ℕ, suc, ◌≡◌, ◌↔◌, refl, String, Bool, true, false, Option, none, some, List, [], ◌∷◌, All, arith,
  is_empty,
}
use ia_lab.Prelude.Json
use ia_lab.Prelude.Json.{Fields}
use ia_lab.Initiative.Contracts.{
  ContractError, first_error, refuse_if, text_of, as_string, normalized_map_slice, is_nothing,
  is_plan_agent, is_plan_target, is_recognized_task_launch_mode, validate_plan_task,
  validate_plan_tasks, validate_epics, validate_execution_plan_payload,
}

-- A task of a plan that can be launched.
pub record IsPlanTask (t : Fields) : Type 0 where
  pub titled : is_empty (text_of "title" t) ≡ false
  pub described : is_empty (text_of "description" t) ≡ false
  pub agent_known : is_plan_agent (text_of "suggested_agent" t) ≡ true
  pub mode_known : is_recognized_task_launch_mode (text_of "execution_mode" t) ≡ true
  pub target_known : is_plan_target (text_of "execution_target" t) ≡ true
  pub has_done : is_empty (text_of "definition_of_done" t) ≡ false

pub record IsEpic (e : Fields) : Type 0 where
  pub named : is_empty (text_of "name" e) ≡ false
  pub has_tasks : is_nothing (normalized_map_slice (Json.get "tasks" e)) ≡ false
  pub tasks_valid : All IsPlanTask (normalized_map_slice (Json.get "tasks" e))

pub record IsPlan (payload : Fields) : Type 0 where
  pub has_epics : is_nothing (normalized_map_slice (Json.get "epics" payload)) ≡ false
  pub epics_valid : All IsEpic (normalized_map_slice (Json.get "epics" payload))

-- A chain of checks passes when each does.
first_error-none : (a b : Option ContractError) → first_error a b ≡ none → (a ≡ none) × (b ≡ none)
first_error-none none b h = (refl, h)
first_error-none (some e) b h = cc

refuse_if-none : (b : Bool) (e : ContractError) → refuse_if b e ≡ none → b ≡ false
refuse_if-none b e h = ground arith

validate_plan_task-IsPlanTask :
    (epic : String) (index : ℕ) (t : Fields)
    → (validate_plan_task epic index t ≡ none) ↔ IsPlanTask t
unfolding validate_plan_task
validate_plan_task-IsPlanTask epic index t = (
  (λ h. record {
    titled = ground arith;
    described = ground arith;
    agent_known = ground arith;
    mode_known = ground arith;
    target_known = ground arith;
    has_done = ground arith;
  }),
  λ h. ground arith,
)

validate_plan_tasks-IsPlanTask :
    (epic : String) (index : ℕ) (ts : List Fields)
    → (validate_plan_tasks epic index ts ≡ none) ↔ All IsPlanTask ts
unfolding validate_plan_tasks
validate_plan_tasks-IsPlanTask epic index [] = (λ h. tt, λ h. refl)
validate_plan_tasks-IsPlanTask epic index (t ∷ ts) = (
  (λ h.
      let (first, rest) =
        first_error-none (validate_plan_task epic index t) (validate_plan_tasks epic (suc index) ts)
          h in
      (
        (validate_plan_task-IsPlanTask epic index t).0 first,
        (validate_plan_tasks-IsPlanTask epic (suc index) ts).0 rest,
      )),
  λ h.
      rw ((validate_plan_task-IsPlanTask epic index t).1 h.0)
        ((validate_plan_tasks-IsPlanTask epic (suc index) ts).1 h.1),
)

-- One epic before the ones whose check is known.
validate_epics-cons :
    (index : ℕ) (e : Fields) (es : List Fields)
    → (validate_epics (suc index) es ≡ none) ↔ All IsEpic es
    → (validate_epics index (e ∷ es) ≡ none) ↔ All IsEpic (e ∷ es)
unfolding validate_epics
validate_epics-cons index e es later = (forth, back)
  where
    tasks : List Fields
    tasks = normalized_map_slice (Json.get "tasks" e)

    name : String
    name = as_string (Json.get "name" e)

    forth : validate_epics index (e ∷ es) ≡ none → All IsEpic (e ∷ es)
    forth h =
        let (h1, k1) = first_error-none _ _ h in
        let (h2, k2) = first_error-none _ _ k1 in
        let (h3, h4) = first_error-none _ _ k2 in
        (
          record {
            named = refuse_if-none _ _ h1;
            has_tasks = refuse_if-none _ _ h2;
            tasks_valid = (validate_plan_tasks-IsPlanTask name 0 tasks).0 h3;
          },
          later.0 h4,
        )

    back : All IsEpic (e ∷ es) → validate_epics index (e ∷ es) ≡ none
    back h =
        rw
          (
            h.0.named,
            h.0.has_tasks,
            (validate_plan_tasks-IsPlanTask name 0 tasks).1 h.0.tasks_valid,
          )
          (later.1 h.1)

validate_epics-IsEpic :
    (index : ℕ) (es : List Fields) → (validate_epics index es ≡ none) ↔ All IsEpic es
unfolding validate_epics
validate_epics-IsEpic index [] = (λ h. tt, λ h. refl)
validate_epics-IsEpic index (e ∷ es) =
    validate_epics-cons index e es (validate_epics-IsEpic (suc index) es)

-- The check of an execution plan passes exactly when the plan has an epic, each epic a name
-- and a task, and each task a title, a description, a known agent, mode and target, and a
-- definition of done.
pub validate_execution_plan_payload-IsPlan :
    (payload : Fields) → (validate_execution_plan_payload payload ≡ none) ↔ IsPlan payload
unfolding validate_execution_plan_payload
validate_execution_plan_payload-IsPlan payload = (forth, back)
  where
    forth : validate_execution_plan_payload payload ≡ none → IsPlan payload
    forth h =
        let (h1, h2) = first_error-none _ _ h in
        record {
          has_epics = refuse_if-none _ _ h1;
          epics_valid =
              (validate_epics-IsEpic 0 (normalized_map_slice (Json.get "epics" payload))).0 h2;
        }

    back : IsPlan payload → validate_execution_plan_payload payload ≡ none
    back h = rw h.has_epics (
        (validate_epics-IsEpic 0 (normalized_map_slice (Json.get "epics" payload))).1 h.epics_valid)
