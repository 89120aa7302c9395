-- ===== src/Initiative/Ready/Dependencies.antt =====
-- internal/orchestratorgo/httpapi/objectives.go: the work items that queueReadyObjectiveTasks may queue,
-- described by the states of the work items that their metadata names.
use ia_lab.Prelude.{
  ◌≡◌, ◌⊎◌, inl, inr, sym, subst, String, true, Option, some, List, [], ◌∷◌, Any, Any-any, arith,
  Bool-cases, Option-cases, &&_left, &&_right, eq_iff, str_eq, is_empty, is_empty-eq, trim_space,
  not, ◌&&◌,
}
use ia_lab.Prelude.Json
use ia_lab.Prelude.Json.{Json, Items, nil, cons}
use ia_lab.Task.State.{created, completed, state_eq, state_eq_iff}
use ia_lab.Initiative.Contracts.{as_string}
use ia_lab.Initiative.Model.{LinkedTask, Rows, list_initiative_tasks}
use ia_lab.Initiative.Objectives.{work_item_id, texts_of}
use ia_lab.Initiative.Ready.{
  Around, by_work_item, is_completed, all_completed, dependencies_satisfied, is_ready_item,
  queue_ready_objective_tasks,
}
use ia_lab.Initiative.Ready.Laws.{is_enqueued, was_ready, queue_ready_objective_tasks-was_ready}

-- A listed work item with this identifier is completed.
abbrev pub HasCompleted : List LinkedTask → String → Type 0
HasCompleted items id = Any (λ j. (work_item_id j ≡ id) × (j.task.state ≡ completed)) items

-- Each of the texts is blank or names a completed work item.
abbrev pub AllDone : List LinkedTask → Items → Type 0
AllDone items nil = Unit
AllDone items (cons v vs) =
    ((trim_space (as_string (some v)) ≡ "") ⊎ HasCompleted items (trim_space (as_string (some v))))
    × AllDone items vs

-- What depends_on names in the metadata is completed.
abbrev pub DependsOnDone : List LinkedTask → Option Json → Type 0
DependsOnDone items (some (Json.arr texts)) = AllDone items texts
DependsOnDone items _ = Unit

-- Why a task may be queued.
abbrev pub IsReadyFor : List LinkedTask → String → LinkedTask → Type 0
IsReadyFor items k i =
    (i.link.task_id ≡ k)
    × (i.task.state ≡ created)
    × DependsOnDone items (Json.get "depends_on" i.task.metadata)

abbrev IsEntry : String → LinkedTask → Type 0
IsEntry id j = (work_item_id j ≡ id) × (j.task.state ≡ completed)

entry-HasCompleted :
    (items : List LinkedTask) (id : String)
    → is_completed (by_work_item items id) ≡ true
    → HasCompleted items id
entry-HasCompleted [] id h = absurd (ground arith)
entry-HasCompleted (i ∷ items) id h = elim (Option-cases (by_work_item items id)) [
  | inr (j, later) ↦
      inr (
        entry-HasCompleted items id
          (subst (λ o. is_completed o ≡ true) (sym later) (rw later at h)))
  | inl absent ↦ elim (Bool-cases (not (is_empty (work_item_id i)) && str_eq (work_item_id i) id)) [
    | inr other ↦ absurd (cc (rw (absent, other) at h))
    | inl own ↦ inl (
      (eq_iff _ _).0 (&&_right (not (is_empty (work_item_id i))) _ own),
      (state_eq_iff _ _).0 (rw (absent, own) at h),
    )
  ]
]

all_completed-AllDone :
    (items : List LinkedTask) (texts : Items)
    → all_completed items (texts_of texts) ≡ true
    → AllDone items texts
all_completed-AllDone items nil h = tt
all_completed-AllDone items (cons v vs) h =
    elim (Bool-cases (is_empty (trim_space (as_string (some v))))) [
      | inl blank ↦ (inl (is_empty-eq _ blank), all_completed-AllDone items vs (rw blank at h))
      | inr text ↦
          let both : (is_completed (by_work_item items (trim_space (as_string (some v))))
                && all_completed items (texts_of vs))
              ≡ true =
            rw text at h in
          (
            inr (entry-HasCompleted items _ (&&_left _ (all_completed items (texts_of vs)) both)),
            all_completed-AllDone items vs (
                &&_right (is_completed (by_work_item items (trim_space (as_string (some v))))) _
                  both),
          )
    ]

satisfied-DependsOnDone :
    (items : List LinkedTask) (i : LinkedTask)
    → dependencies_satisfied items i ≡ true
    → DependsOnDone items (Json.get "depends_on" i.task.metadata)
unfolding dependencies_satisfied
satisfied-DependsOnDone items i h = by_value (Json.get "depends_on" i.task.metadata) h
  where
    by_value :
        (v : Option Json)
        → all_completed items
            (elim v as (λ x. List String) [ some (Json.arr texts) ↦ texts_of texts | _ ↦ [] ])
          ≡ true
        → DependsOnDone items v
    by_value (some (Json.arr texts)) h = all_completed-AllDone items texts h
    by_value _ h = tt

was_ready-IsReadyFor :
    (items : List LinkedTask) (k : String) (i : LinkedTask)
    → was_ready items k i ≡ true
    → IsReadyFor items k i
unfolding is_ready_item
was_ready-IsReadyFor items k i h =
    let ready : is_ready_item items i ≡ true = &&_left _ (str_eq i.link.task_id k) h in
    (
      (eq_iff _ _).0 (&&_right (is_ready_item items i) _ h),
      (state_eq_iff _ _).0 (&&_left _ (dependencies_satisfied items i) ready),
      satisfied-DependsOnDone items i (&&_right (state_eq i.task.state created) _ ready),
    )

-- A task that the queueing of ready work items puts on a queue is that of a listed item that
-- was in state created, and each text in the depends_on of its metadata is blank or the
-- identifier of a listed item that was completed.
pub queue_ready_objective_tasks-dependencies :
    (a : Around) (r : Rows) (k : String)
    → is_enqueued k (queue_ready_objective_tasks a [] r).enqueued ≡ true
    → Any (IsReadyFor (list_initiative_tasks r) k) (list_initiative_tasks r)
queue_ready_objective_tasks-dependencies a r k there =
    Any-any (IsReadyFor (list_initiative_tasks r) k) (was_ready (list_initiative_tasks r) k)
      (list_initiative_tasks r) (was_ready-IsReadyFor (list_initiative_tasks r) k)
      (queue_ready_objective_tasks-was_ready a r k there)
