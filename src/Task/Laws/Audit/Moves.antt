-- ===== src/Task/Laws/Audit/Moves.antt =====
-- The audit log under the operations that move a task that exists.
use ia_lab.Prelude.{ℕ, String, ◌≡◌, refl, subst, Bool, Option, some, List, ◌∷◌}
use ia_lab.Prelude.Json
use ia_lab.Prelude.Json.{Json, Fields}
use ia_lab.Task.State.{TaskState, queued, waiting_approval}
use ia_lab.Task.Model.{Task, Approval, Db, ok, get_task, update_task, update_approval}
use ia_lab.Task.Store.{
  transition_task_state_tx, set_outcome, update_task_state, finalize_task, queue_task_for_launch,
}
use ia_lab.Task.Store.Approvals.{
  set_metadata, new_approval, close_approval, decided_status, decided_state, decided_metadata,
  request_approval, resolve_approval,
}
use ia_lab.Task.Laws.Results.{check-eq-ok, load_approval-eq-ok, load_task-eq-ok, ok_injective}
use ia_lab.Task.Laws.Audit.{
  logged, Agrees, IsAudited, KeepsState, update_task-Agrees, transition-IsAudited,
}

pub rewrite-IsAudited :
    (k : String) (f : Task → Task) (db : Db)
    → KeepsState f
    → IsAudited db
    → IsAudited (record db { tasks = update_task k f db.tasks })
rewrite-IsAudited k f db keeps h = record {
  current = λ j. update_task-Agrees k j f db.tasks (logged j db.transitions) keeps (h.current j);
  chained = h.chained;
}

agreed :
    (k : String) (db : Db) (t : Task)
    → IsAudited db
    → get_task k db.tasks ≡ some t
    → t.state ≡ logged k db.transitions
agreed k db t h e = subst (λ o. Agrees o (logged k db.transitions)) e (h.current k)

pub update_task_state-IsAudited :
    (k : String) (target : TaskState) (actor reason : String) (now : ℕ) (db db' : Db)
    → IsAudited db
    → update_task_state k target actor reason now db ≡ ok db'
    → IsAudited db'
unfolding update_task_state
update_task_state-IsAudited k target actor reason now db db' h e =
    let (t, found, e') = load_task-eq-ok k db _ e in
    let (valid, e'') = check-eq-ok _ _ _ e' in
    subst IsAudited (ok_injective e'')
      (transition-IsAudited k t.state target actor reason now db h (agreed k db t h found))

set_outcome-KeepsState :
    (results : Option Json) (error : Option String) → KeepsState (set_outcome results error)
unfolding set_outcome
set_outcome-KeepsState results error = record { same_id = λ t. refl; same_state = λ t. refl }

set_metadata-KeepsState : (m : Fields) → KeepsState (set_metadata m)
set_metadata-KeepsState m = record { same_id = λ t. refl; same_state = λ t. refl }

-- A row is rewritten and then moved: the shape of the operations that write more than the state.
moved-IsAudited :
    (k : String) (f : Task → Task) (target : TaskState) (actor reason : String) (now : ℕ) (db : Db)
    (t : Task)
    → KeepsState f
    → IsAudited db
    → get_task k db.tasks ≡ some t
    → IsAudited (
        transition_task_state_tx k t.state target actor reason now
          (record db { tasks = update_task k f db.tasks }))
moved-IsAudited k f target actor reason now db t keeps h found =
    transition-IsAudited k t.state target actor reason now _ (rewrite-IsAudited k f db keeps h)
      (agreed k db t h found)

pub finalize_task-IsAudited :
    (k : String) (target : TaskState) (actor reason : String) (results : Option Json)
    (error : Option String) (now : ℕ) (db db' : Db)
    → IsAudited db
    → finalize_task k target actor reason results error now db ≡ ok db'
    → IsAudited db'
unfolding finalize_task
finalize_task-IsAudited k target actor reason results error now db db' h e =
    let (t, found, e') = load_task-eq-ok k db _ e in
    let (valid, e'') = check-eq-ok _ _ _ e' in
    subst IsAudited (ok_injective e'') (
      moved-IsAudited k (set_outcome results error) target actor reason now db t
        (set_outcome-KeepsState results error) h found)

pub queue_task_for_launch-IsAudited :
    (k actor reason : String) (now : ℕ) (db db' : Db)
    → IsAudited db
    → queue_task_for_launch k actor reason now db ≡ ok db'
    → IsAudited db'
unfolding queue_task_for_launch
queue_task_for_launch-IsAudited k actor reason now db db' h e =
    let (t, found, e') = load_task-eq-ok k db _ e in
    let (valid, e'') = check-eq-ok _ _ _ e' in
    subst IsAudited (ok_injective e'')
      (transition-IsAudited k t.state queued actor reason now db h (agreed k db t h found))

-- The approvals are no part of the log.
approvals-IsAudited :
    (l : List Approval) (db : Db) → IsAudited db → IsAudited (record db { approvals = l })
approvals-IsAudited l db h = record { current = h.current; chained = h.chained }

pub request_approval-IsAudited :
    (a k action target : String) (ttl : ℕ) (actor reason : String) (p : Fields) (now : ℕ)
    (db db' : Db)
    → IsAudited db
    → request_approval a k action target ttl actor reason p now db ≡ ok db'
    → IsAudited db'
unfolding request_approval
request_approval-IsAudited a k action target ttl actor reason p now db db' h e =
    let (t, found, e') = load_task-eq-ok k db _ e in
    let (valid, e'') = check-eq-ok _ _ _ e' in
    subst IsAudited (ok_injective e'') (
      moved-IsAudited k (set_metadata (Json.merge t.metadata p)) waiting_approval actor reason now
        (record db { approvals = new_approval a k action target ttl now ∷ db.approvals }) t
        (set_metadata-KeepsState _) (approvals-IsAudited _ db h) found)

pub resolve_approval-IsAudited :
    (a : String) (approve : Bool) (operator : String) (now : ℕ) (db db' : Db)
    → IsAudited db
    → resolve_approval a approve operator now db ≡ ok db'
    → IsAudited db'
unfolding resolve_approval
resolve_approval-IsAudited a approve operator now db db' h e =
    let (approval, found_approval, e0) = load_approval-eq-ok a db _ e in
    let (pending, e1) = check-eq-ok _ _ _ e0 in
    let (t, found, e2) = load_task-eq-ok approval.task_id db _ e1 in
    let (valid, e3) = check-eq-ok _ _ _ e2 in
    subst IsAudited (ok_injective e3) (
      moved-IsAudited approval.task_id (set_metadata (decided_metadata approve t.metadata))
        (decided_state approve) _ _ now
        (record db {
          approvals =
              update_approval a (close_approval (decided_status approve) operator now) db.approvals;
        })
        t (set_metadata-KeepsState _) (approvals-IsAudited _ db h) found)
