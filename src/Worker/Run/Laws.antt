-- ===== src/Worker/Run/Laws.antt =====
-- How the execution of a task ends.

use ia_lab.Prelude.{
  ℕ, ◌≡◌, refl, sym, ap, subst, ◌∙◌, String, true, false, Option, none, some, List, [], ◌∷◌, any,
  is_some, not, ◌&&◌, Bool-cases, inl, inr, eq_iff, str_eq, find, filter,
}
use ia_lab.Prelude.Json.{Json}
use ia_lab.Task.State.{TaskState, completed, failed, state_eq, is_terminal_state}
use ia_lab.Task.Model.{Task, Db, get_task, Result, ok, err}
use ia_lab.Task.Store.{
  finalize_task, complete_task, fail_task, set_outcome, stamp_transition, transition_task_state_tx,
}
use ia_lab.Task.Laws.Results.{check-eq-ok, load_task-eq-ok, ok_injective}
use ia_lab.Task.Laws.States.{is_terminal_state-no_exit}
use ia_lab.Task.Laws.Rows.{get_task-update_task_ne}
use ia_lab.Worker.{
  RuntimeWorker, or_else, is_lost, is_unfinished, root_id_of, list_by_root, settle_root,
  settle_tree, reconcile_found, reconcile_root_task,
}

-- A finalisation of a task that has ended is refused.
finalize_task-ended :
    (r : String) (target : TaskState) (actor reason : String) (results : Option Json)
    (error : Option String) (now : ℕ) (db : Db) (t : Task)
    → get_task r db.tasks ≡ some t
    → is_terminal_state t.state ≡ true
    → or_else (finalize_task r target actor reason results error now db) db ≡ db
unfolding finalize_task
finalize_task-ended r target actor reason results error now db t there ended =
    rw (there, (is_terminal_state-no_exit t.state).0 ended target)

-- The rows other than that of the finalised task.
finalize_task-other :
    (r : String) (target : TaskState) (actor reason : String) (results : Option Json)
    (error : Option String) (now : ℕ) (db db' : Db) (k : String)
    → str_eq r k ≡ false
    → finalize_task r target actor reason results error now db ≡ ok db'
    → get_task k db'.tasks ≡ get_task k db.tasks
unfolding finalize_task transition_task_state_tx stamp_transition set_outcome
finalize_task-other r target actor reason results error now db db' k other e =
    let (t, found, e1) = load_task-eq-ok r db _ e in
    let (_, e2) = check-eq-ok _ _ _ e1 in
    ap (λ d. get_task k d.tasks) (sym (ok_injective e2))
    ∙ get_task-update_task_ne r k (stamp_transition target now) _ (λ u. refl) other
    ∙ get_task-update_task_ne r k (set_outcome results error) db.tasks (λ u. refl) other

finalize_task-terminal :
    (r : String) (target : TaskState) (actor reason : String) (results : Option Json)
    (error : Option String) (now : ℕ) (db : Db) (k : String) (t : Task)
    → get_task k db.tasks ≡ some t
    → is_terminal_state t.state ≡ true
    → get_task k (or_else (finalize_task r target actor reason results error now db) db).tasks
      ≡ some t
finalize_task-terminal r target actor reason results error now db k t there ended =
    elim (Bool-cases (str_eq r k)) [
      | inl same ↦
          ap (λ d. get_task k d.tasks)
            (finalize_task-ended r target actor reason results error now db t
              (subst (λ j. get_task j db.tasks ≡ some t) (sym ((eq_iff _ _).0 same)) there) ended)
          ∙ there
      | inr other ↦ by_result (finalize_task r target actor reason results error now db) refl other
    ]
  where
    by_result :
        (res : Result Db)
        → finalize_task r target actor reason results error now db ≡ res
        → str_eq r k ≡ false
        → get_task k (or_else res db).tasks ≡ some t
    by_result (err e) _ _ = there
    by_result (ok db') e other =
        finalize_task-other r target actor reason results error now db db' k other e ∙ there

settle_root-terminal :
    (w : RuntimeWorker) (root : Task) (children : List Task) (now : ℕ) (db : Db) (k : String)
    (t : Task)
    → get_task k db.tasks ≡ some t
    → is_terminal_state t.state ≡ true
    → get_task k (settle_root w root children now db).tasks ≡ some t
unfolding settle_root complete_task fail_task
settle_root-terminal w root children now db k t there ended =
    elim (Bool-cases (any is_lost children)) [
      | inl lost ↦ elim (Bool-cases (is_terminal_state root.state)) [
        | inl over ↦ rw (lost, over) there
        | inr running ↦
            rw (lost, running)
              (finalize_task-terminal root.id failed _ _ _ _ now db k t there ended)
      ]
      | inr fine ↦
          elim (Bool-cases
            (not (any is_unfinished children) && not (state_eq root.state completed))) [
              | inl all ↦
                  rw (fine, all)
                    (finalize_task-terminal root.id completed _ _ _ _ now db k t there ended)
              | inr some_left ↦ rw (fine, some_left) there
            ]
    ]

settle_tree-terminal :
    (w : RuntimeWorker) (root : String) (tasks : List Task) (now : ℕ) (db : Db) (k : String)
    (t : Task)
    → get_task k db.tasks ≡ some t
    → is_terminal_state t.state ≡ true
    → get_task k (settle_tree w root tasks now db).tasks ≡ some t
unfolding settle_tree
settle_tree-terminal w root tasks now db k t there ended =
    by_rows (find (λ u. str_eq u.id root) tasks) (filter (λ u. not (str_eq u.id root)) tasks)
  where
    by_rows :
        (found : Option Task) (children : List Task)
        → get_task k
            (elim found as (λ x. Db) [
              | none ↦ db
              | some r ↦ elim children as (λ x. Db) [
                | [] ↦ db
                | child ∷ others ↦ settle_root w r (child ∷ others) now db
              ]
            ]).tasks
          ≡ some t
    by_rows none children = there
    by_rows (some r) [] = there
    by_rows (some r) (child ∷ others) =
        settle_root-terminal w r (child ∷ others) now db k t there ended

reconcile_found-terminal :
    (w : RuntimeWorker) (found : Option Task) (now : ℕ) (db : Db) (k : String) (t : Task)
    → get_task k db.tasks ≡ some t
    → is_terminal_state t.state ≡ true
    → get_task k (reconcile_found w found now db).tasks ≡ some t
unfolding reconcile_found
reconcile_found-terminal w none now db k t there ended = there
reconcile_found-terminal w (some u) now db k t there ended =
    elim (Bool-cases (str_eq (root_id_of u) u.id && not (is_some u.parent_task_id))) [
      | inl alone ↦ rw alone there
      | inr below ↦ rw below (
          settle_tree-terminal w (root_id_of u) (list_by_root (root_id_of u) db) now db k t there
            ended)
    ]

-- Reconciling a root leaves the row of a task that has ended.
pub reconcile_root_task-terminal :
    (w : RuntimeWorker) (j : String) (now : ℕ) (db : Db) (k : String) (t : Task)
    → get_task k db.tasks ≡ some t
    → is_terminal_state t.state ≡ true
    → get_task k (reconcile_root_task w j now db).tasks ≡ some t
unfolding reconcile_root_task
reconcile_root_task-terminal w j now db k t there ended =
    reconcile_found-terminal w (get_task j db.tasks) now db k t there ended
