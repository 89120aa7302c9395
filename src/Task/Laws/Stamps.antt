-- ===== src/Task/Laws/Stamps.antt =====
-- The columns queued_at, started_at and completed_at beside the state, and the moves that are logged.
use ia_lab.Prelude.{
  ℕ, String, ◌≡◌, refl, ◌⊎◌, Bool, true, false, ◌||◌, Option, List, All, arith, is_some,
  if◌then◌else◌, inl, inr, subst,
}
use ia_lab.Prelude.Json.{Json, Fields}
use ia_lab.Task.State.{
  TaskState, created, queued, waiting_approval, in_progress, failed, cancelled, is_terminal_state,
  state_eq, is_valid_transition,
}
use ia_lab.Task.Model.{Task, Approval, Transition, Db, ok, update_task}
use ia_lab.Task.Store.{
  stamp_transition, transition_task_state_tx, set_outcome, update_task_state, finalize_task,
  queue_task_for_launch, archive_task, unarchive_task, update_task_results, patch_task_metadata,
}
use ia_lab.Task.Store.Create.{CreateTaskParams, new_task, create_task, insert_task}
use ia_lab.Task.Store.Approvals.{set_metadata, decided_state, request_approval, resolve_approval}
use ia_lab.Task.Laws.Results.{check-eq-ok, load_task-eq-ok, load_approval-eq-ok, ok_injective}
use ia_lab.Task.Laws.Rows.{All-update_task}
use ia_lab.Task.Laws.Audit.Steps.{
  Operation, create, update, finalize, launch, request, resolve, archive, unarchive, save_results,
  patch, run,
}

pub record IsStamped (t : Task) : Type 0 where
  pub queued_stamp : t.state ≡ queued → is_some t.queued_at ≡ true
  pub started_stamp : t.state ≡ in_progress → is_some t.started_at ≡ true
  pub completed_stamp : is_terminal_state t.state ≡ true → is_some t.completed_at ≡ true

-- The rows are stamped and the log holds valid transitions and launches.
abbrev pub IsLegal : Transition → Type 0
IsLegal r =
    (is_valid_transition r.from_state r.to_state ≡ true)
    ⊎ ((r.to_state ≡ queued)
        × ((r.from_state ≡ created) ⊎ (r.from_state ≡ failed) ⊎ (r.from_state ≡ cancelled)))

pub record IsSound (db : Db) : Type 0 where
  pub stamped : All IsStamped db.tasks
  pub legal : All IsLegal db.transitions

stamp_transition-IsStamped :
    (target : TaskState) (now : ℕ) (t : Task) → IsStamped (stamp_transition target now t)
unfolding stamp_transition is_terminal_state
stamp_transition-IsStamped target now t = ground arith

transition-IsSound :
    (k : String) (from target : TaskState) (actor reason : String) (now : ℕ) (db : Db)
    → IsSound db
    → (is_valid_transition from target ≡ true)
      ⊎ ((target ≡ queued) × ((from ≡ created) ⊎ (from ≡ failed) ⊎ (from ≡ cancelled)))
    → IsSound (transition_task_state_tx k from target actor reason now db)
unfolding transition_task_state_tx
transition-IsSound k from target actor reason now db h legal = record {
  stamped =
      All-update_task IsStamped k _ db.tasks (λ t _. stamp_transition-IsStamped target now t)
        h.stamped;
  legal = (legal, h.legal);
}

-- A rewrite of the columns that carry no stamp and no state.
rewrite-IsSound :
    (k : String) (f : Task → Task) (db : Db)
    → ((t : Task) → IsStamped t → IsStamped (f t))
    → IsSound db
    → IsSound (record db { tasks = update_task k f db.tasks })
rewrite-IsSound k f db keeps h = record {
  stamped = All-update_task IsStamped k f db.tasks keeps h.stamped;
  legal = h.legal;
}

update_task_state-IsSound :
    (k : String) (target : TaskState) (actor reason : String) (now : ℕ) (db db' : Db)
    → IsSound db
    → update_task_state k target actor reason now db ≡ ok db'
    → IsSound db'
unfolding update_task_state
update_task_state-IsSound k target actor reason now db db' h e =
    let (t, found, e') = load_task-eq-ok k db _ e in
    let (valid, e'') = check-eq-ok _ _ _ e' in
    subst IsSound (ok_injective e'')
      (transition-IsSound k t.state target actor reason now db h (inl valid))

finalize_task-IsSound :
    (k : String) (target : TaskState) (actor reason : String) (results : Option Json)
    (error : Option String) (now : ℕ) (db db' : Db)
    → IsSound db
    → finalize_task k target actor reason results error now db ≡ ok db'
    → IsSound db'
unfolding finalize_task set_outcome
finalize_task-IsSound k target actor reason results error now db db' h e =
    let (t, found, e') = load_task-eq-ok k db _ e in
    let (valid, e'') = check-eq-ok _ _ _ e' in
    subst IsSound (ok_injective e'') (
      transition-IsSound k t.state target actor reason now _
        (rewrite-IsSound k _ db (λ u s. ground arith) h) (inl valid))

launchable_cases :
    (s : TaskState)
    → (state_eq s created || state_eq s failed || state_eq s cancelled) ≡ true
    → (s ≡ created) ⊎ (s ≡ failed) ⊎ (s ≡ cancelled)
launchable_cases s h = ground arith

queue_task_for_launch-IsSound :
    (k actor reason : String) (now : ℕ) (db db' : Db)
    → IsSound db
    → queue_task_for_launch k actor reason now db ≡ ok db'
    → IsSound db'
unfolding queue_task_for_launch
queue_task_for_launch-IsSound k actor reason now db db' h e =
    let (t, found, e') = load_task-eq-ok k db _ e in
    let (launchable, e'') = check-eq-ok _ _ _ e' in
    subst IsSound (ok_injective e'') (
      transition-IsSound k t.state queued actor reason now db h
        (inr (refl, launchable_cases t.state launchable)))

approvals-IsSound :
    (l : List Approval) (db : Db) → IsSound db → IsSound (record db { approvals = l })
approvals-IsSound l db h = record { stamped = h.stamped; legal = h.legal }

set_metadata-IsStamped : (m : Fields) (t : Task) → IsStamped t → IsStamped (set_metadata m t)
set_metadata-IsStamped m t s = ground arith

request_approval-IsSound :
    (a k action target : String) (ttl : ℕ) (actor reason : String) (p : Fields) (now : ℕ)
    (db db' : Db)
    → IsSound db
    → request_approval a k action target ttl actor reason p now db ≡ ok db'
    → IsSound db'
unfolding request_approval
request_approval-IsSound a k action target ttl actor reason p now db db' h e =
    let (t, found, e') = load_task-eq-ok k db _ e in
    let (valid, e'') = check-eq-ok _ _ _ e' in
    subst IsSound (ok_injective e'') (
      transition-IsSound k t.state waiting_approval actor reason now _
        (rewrite-IsSound k _ _ (set_metadata-IsStamped _) (approvals-IsSound _ db h)) (inl valid))

resolve_approval-IsSound :
    (a : String) (approve : Bool) (operator : String) (now : ℕ) (db db' : Db)
    → IsSound db
    → resolve_approval a approve operator now db ≡ ok db'
    → IsSound db'
unfolding resolve_approval
resolve_approval-IsSound a approve operator now db db' h e =
    let (approval, found_approval, e0) = load_approval-eq-ok a db _ e in
    let (pending, e1) = check-eq-ok _ _ _ e0 in
    let (t, found, e2) = load_task-eq-ok approval.task_id db _ e1 in
    let (valid, e3) = check-eq-ok _ _ _ e2 in
    subst IsSound (ok_injective e3) (
      transition-IsSound approval.task_id t.state (decided_state approve) _ _ now _
        (rewrite-IsSound approval.task_id _ _ (set_metadata-IsStamped _) (approvals-IsSound _ db h))
        (inl valid))

new_task-IsSound :
    (p : CreateTaskParams) (k c : String) (now : ℕ) (db : Db)
    → IsSound db
    → IsSound (insert_task (new_task p k c now) db)
unfolding insert_task new_task is_terminal_state
new_task-IsSound p k c now db h = record { stamped = (ground arith, h.stamped); legal = h.legal }

if-IsSound : (b : Bool) (x y : Db) → IsSound x → IsSound y → IsSound (if b then x else y)
if-IsSound true x y h k = h
if-IsSound false x y h k = k

create_task-IsSound :
    (p : CreateTaskParams) (k c : String) (now : ℕ) (db : Db)
    → IsSound db
    → IsSound (create_task p k c now db)
unfolding create_task is_valid_transition
create_task-IsSound p k c now db h =
    if-IsSound p.queue_on_create _ _
      (transition-IsSound k created queued _ _ now _ (new_task-IsSound p k c now db h) (inl refl))
      (new_task-IsSound p k c now db h)

patch_task_metadata-IsSound :
    (k : String) (p : Fields) (now : ℕ) (db : Db)
    → IsSound db
    → IsSound (patch_task_metadata k p now db)
unfolding patch_task_metadata
patch_task_metadata-IsSound k Fields.end now db h = h
patch_task_metadata-IsSound k (Fields.field key v p) now db h =
    rewrite-IsSound k _ db (λ t s. ground arith) h

-- If the stamps of the rows fit their states and the log holds valid transitions and launches
-- only, the same holds after any creation, transition, finalisation, launch, approval request
-- or decision, archiving, saving of results or metadata that succeeds.
pub run-IsSound :
    (o : Operation) (now : ℕ) (db db' : Db) → IsSound db → run o now db ≡ ok db' → IsSound db'
unfolding run archive_task unarchive_task update_task_results
run-IsSound (create p k c) now db db' h e =
    subst IsSound (ok_injective e) (create_task-IsSound p k c now db h)
run-IsSound (update k target actor reason) now db db' h e =
    update_task_state-IsSound k target actor reason now db db' h e
run-IsSound (finalize k target actor reason results error) now db db' h e =
    finalize_task-IsSound k target actor reason results error now db db' h e
run-IsSound (launch k actor reason) now db db' h e =
    queue_task_for_launch-IsSound k actor reason now db db' h e
run-IsSound (request a k action target ttl actor reason p) now db db' h e =
    request_approval-IsSound a k action target ttl actor reason p now db db' h e
run-IsSound (resolve a approve operator) now db db' h e =
    resolve_approval-IsSound a approve operator now db db' h e
run-IsSound (archive k) now db db' h e =
    subst IsSound (ok_injective e) (rewrite-IsSound k _ db (λ t s. ground arith) h)
run-IsSound (unarchive k) now db db' h e =
    subst IsSound (ok_injective e) (rewrite-IsSound k _ db (λ t s. ground arith) h)
run-IsSound (save_results k results) now db db' h e =
    subst IsSound (ok_injective e) (rewrite-IsSound k _ db (λ t s. ground arith) h)
run-IsSound (patch k p) now db db' h e =
    subst IsSound (ok_injective e) (patch_task_metadata-IsSound k p now db h)
