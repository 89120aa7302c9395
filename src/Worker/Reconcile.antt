-- ===== src/Worker/Reconcile.antt =====
-- reconcileRootTask, from the task that has ended to the root of its tree.
use ia_lab.Prelude.{
  ℕ, String, ◌≡◌, refl, false, not, some, List, ◌∷◌, any, find, filter, str_eq, if◌then◌else◌,
}
use mathlib.Core.Option
use ia_lab.Task.State.{in_progress, completed, failed}
use ia_lab.Task.Model.{Task, Db, get_task}
use ia_lab.Worker.{
  RuntimeWorker, root_id_of, list_by_root, is_lost, is_unfinished, settle_root, settle_tree,
  reconcile_found, reconcile_root_task,
}
use ia_lab.Worker.Laws.{settle_root_state}

settle_tree-eq_settle_root :
    (w : RuntimeWorker) (root_id : String) (tasks : List Task) (now : ℕ) (db : Db) (root c : Task)
    (cs : List Task)
    → find (λ u. str_eq u.id root_id) tasks ≡ some root
    → filter (λ u. not (str_eq u.id root_id)) tasks ≡ c ∷ cs
    → settle_tree w root_id tasks now db ≡ settle_root w root (c ∷ cs) now db
unfolding settle_tree
settle_tree-eq_settle_root w root_id tasks now db root c cs found children =
    rw (found, children, settle_tree) refl

-- When a task below a root that is in progress is reconciled, and the rows of the tree hold
-- the root and other tasks, the root fails if one of those is failed or cancelled, else stays
-- if one is unfinished, else is completed.
pub reconcile_root_task_state :
    (w : RuntimeWorker) (k : String) (now : ℕ) (db : Db) (t root c : Task) (cs : List Task)
    → get_task k db.tasks ≡ some t
    → str_eq (root_id_of t) t.id ≡ false
    → find (λ u. str_eq u.id (root_id_of t)) (list_by_root (root_id_of t) db) ≡ some root
    → filter (λ u. not (str_eq u.id (root_id_of t))) (list_by_root (root_id_of t) db) ≡ c ∷ cs
    → get_task root.id db.tasks ≡ some root
    → root.state ≡ in_progress
    → Option.map (λ u. u.state) (get_task root.id (reconcile_root_task w k now db).tasks)
      ≡ some (
          if any is_lost (c ∷ cs)
          then failed
          else if any is_unfinished (c ∷ cs)
          then in_progress
          else completed)
unfolding reconcile_root_task reconcile_found
reconcile_root_task_state w k now db t root c cs there below found children stored running =
    rw
      (
        there,
        below,
        settle_tree-eq_settle_root w (root_id_of t) (list_by_root (root_id_of t) db) now db root c
            cs found children,
      )
      (settle_root_state w root (c ∷ cs) now db stored running)
