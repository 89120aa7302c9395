-- ===== src/Worker/Planner/Laws.antt =====
-- Plans with a step for the planner itself.
use ia_lab.Prelude.{
  ℕ, suc, ◌≡◌, refl, String, Bool, true, false, ◌⊎◌, Option, none, some, List, [], ◌∷◌, any, arith,
  is_some, Bool-cases, Option-cases, inl, inr, eq_iff,
}
use ia_lab.Prelude.Json.{Fields, Json}
use ia_lab.Task.State.{Priority, ExecutionTarget}
use ia_lab.Task.Model.{Task, Db, get_task, Enqueued}
use ia_lab.Task.Store.{complete_task}
use ia_lab.Task.Store.Create.{CreateTaskParams, create_task, insert_task, new_task}
use ia_lab.Worker.{RuntimeWorker}
use ia_lab.Worker.Laws.{complete_task-invalid}
use ia_lab.Worker.Planner.{
  PlannerSubtask, Surroundings, Planning, agent_of, is_planner, store_child, add_subtask,
  add_subtasks, handle_planner_success, subtasks_of, is_plan_only, is_no_subtask, finish_plan,
  store_call,
}

abbrev pub is_planner_step : PlannerSubtask → Bool
is_planner_step spec = is_planner (agent_of spec.assigned_agent)

get_task-create_task :
    (params : CreateTaskParams) (k c : String) (now : ℕ) (db : Db)
    → params.queue_on_create ≡ false
    → get_task k (create_task params k c now db).tasks ≡ some (new_task params k c now)
unfolding create_task insert_task new_task
get_task-create_task params k c now db off = rw (off, (eq_iff k k).1 refl)

-- A task that was just created cannot be completed.
complete_new :
    (params : CreateTaskParams) (k c actor reason : String) (results : Option Json) (now : ℕ)
    (db : Db) (p : Planning)
    → params.queue_on_create ≡ false
    → is_some
        (store_call
          (complete_task k actor reason results now (create_task params k c now db))
          p).failure
      ≡ true
unfolding new_task
complete_new params k c actor reason results now db p off = rw (
    complete_task-invalid k actor reason results now (create_task params k c now db)
      (new_task params k c now) (get_task-create_task params k c now db off) (λ e. cc e)
      (λ e. cc e))

store_child-planner :
    (w : RuntimeWorker) (s : Surroundings) (t : Task) (index : ℕ) (spec : PlannerSubtask)
    (priority : Option Priority) (target : Option ExecutionTarget) (p : Planning)
    → is_planner_step spec ≡ true
    → is_some (store_child w s t index spec priority target p).failure ≡ true
store_child-planner w s t index spec none target p step = refl
store_child-planner w s t index spec (some priority) none p step = refl
store_child-planner w s t index spec (some priority) (some target) p step =
    rw step (complete_new _ (s.child_id index) (s.correlation_id index) _ _ _ s.now p.db _ refl)

add_subtask-planner :
    (w : RuntimeWorker) (s : Surroundings) (t : Task) (index : ℕ) (spec : PlannerSubtask)
    (p : Planning)
    → is_planner_step spec ≡ true
    → is_some (add_subtask w s t index spec p).failure ≡ true
unfolding add_subtask
add_subtask-planner w s t index spec p step = store_child-planner w s t index spec _ _ p step

add_subtasks-planner :
    (w : RuntimeWorker) (s : Surroundings) (t : Task) (index : ℕ) (specs : List PlannerSubtask)
    (p : Planning)
    → any is_planner_step specs ≡ true
    → is_some (add_subtasks w s t index specs p).failure ≡ true
unfolding add_subtasks
add_subtasks-planner w s t index [] p steps = ground arith
add_subtasks-planner w s t index (spec ∷ specs) p steps =
    elim (Option-cases (add_subtask w s t index spec p).failure) [
      | inr (e, ended) ↦ rw ended
      | inl goes_on ↦ rw goes_on (
          add_subtasks-planner w s t (suc index) specs _
            (later (Bool-cases (is_planner_step spec)) goes_on))
    ]
  where
    later :
        (is_planner_step spec ≡ true) ⊎ (is_planner_step spec ≡ false)
        → (add_subtask w s t index spec p).failure ≡ none
        → any is_planner_step specs ≡ true
    later (inl here) goes_on = cc (add_subtask-planner w s t index spec p here, goes_on)
    later (inr other) goes_on = rw other at steps

finish_plan-failed :
    (w : RuntimeWorker) (s : Surroundings) (t : Task) (results : Option Fields) (p : Planning)
    → is_some p.failure ≡ true
    → is_some (finish_plan w s t results p).failure ≡ true
finish_plan-failed w s t results p failed = elim (Option-cases p.failure) [
  | inl fine ↦ cc (failed, fine)
  | inr (e, ended) ↦ rw (ended, finish_plan, ended)
]

some_subtask :
    (specs : List PlannerSubtask) → any is_planner_step specs ≡ true → is_no_subtask specs ≡ false
some_subtask [] steps = cc steps
some_subtask (spec ∷ specs) steps = refl

-- A plan that is to be carried out and has a subtask for the planner always ends with an
-- error.
pub handle_planner_success-planner_step :
    (w : RuntimeWorker) (s : Surroundings) (t : Task) (results : Option Fields)
    (enqueued : List Enqueued) (db : Db)
    → is_plan_only results ≡ false
    → any is_planner_step (subtasks_of results) ≡ true
    → is_some (handle_planner_success w s t results enqueued db).failure ≡ true
unfolding handle_planner_success
handle_planner_success-planner_step w s t results enqueued db not_only steps =
    rw (not_only, some_subtask (subtasks_of results) steps)
      (finish_plan-failed w s t results _
        (add_subtasks-planner w s t 0 (subtasks_of results) _ steps))
