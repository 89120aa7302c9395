-- ===== src/Task/Laws/Audit.antt =====
-- The audit log `state_transitions`, and what it is for it to be in step with the rows.
pub mod Steps
pub mod Moves
use ia_lab.Prelude.{
  ℕ, String, ◌≡◌, refl, Bool, true, false, Option, none, some, List, [], ◌∷◌, arith, eq_iff, str_eq,
  if◌then◌else◌, any, Option-cases, inl, inr,
}
use ia_lab.Task.State.{TaskState, created}
use ia_lab.Task.Model.{Task, Transition, Db, get_task, update_task}
use ia_lab.Task.Store.{stamp_transition, transition_task_state_tx}
use ia_lab.Task.Laws.Rows.{get_task-update_task}

-- The state that the log gives a task: that of its newest record.
unfoldable pub logged : String → List Transition → TaskState
logged k [] = created
logged k (r ∷ log) = if str_eq r.task_id k then r.to_state else logged k log

-- Each record starts in the state that the older ones give.
abbrev pub Chained : List Transition → Type 0
Chained [] = Unit
Chained (r ∷ log) = (r.from_state ≡ logged r.task_id log) × Chained log

abbrev pub Agrees : Option Task → TaskState → Type 0
Agrees none s = Unit
Agrees (some t) s = t.state ≡ s

pub record IsAudited (db : Db) : Type 0 where
  pub current : (k : String) → Agrees (get_task k db.tasks) (logged k db.transitions)
  pub chained : Chained db.transitions

-- A rewrite of a row that keeps its identifier and its state.
pub record KeepsState (f : Task → Task) : Type 0 where
  pub same_id : (t : Task) → (f t).id ≡ t.id
  pub same_state : (t : Task) → (f t).state ≡ t.state

pub update_task-Agrees :
    (k j : String) (f : Task → Task) (ts : List Task) (s : TaskState)
    → KeepsState f
    → Agrees (get_task j ts) s
    → Agrees (get_task j (update_task k f ts)) s
update_task-Agrees k j f ts s keeps h =
    rw (get_task-update_task k j f ts keeps.same_id) (elim (Option-cases (get_task j ts)) [
      | inl e ↦ ground arith
      | inr (t, e) ↦ ground (arith, keeps.same_state t)
    ])

pub transition-IsAudited :
    (k : String) (from target : TaskState) (actor reason : String) (now : ℕ) (db : Db)
    → IsAudited db
    → from ≡ logged k db.transitions
    → IsAudited (transition_task_state_tx k from target actor reason now db)
unfolding transition_task_state_tx logged
transition-IsAudited k from target actor reason now db h e = record {
  current = λ j.
      rw (get_task-update_task k j (stamp_transition target now) db.tasks (λ t. refl))
        (elim (Option-cases (get_task j db.tasks)) [
          | inl absent ↦ ground arith
          | inr (t, there) ↦ ground (arith, h.current j)
        ]);
  chained = (e, h.chained);
}
