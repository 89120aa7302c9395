-- ===== src/Task/Laws/Audit/Steps.antt =====
-- The operations of the store as steps, and the audit log under each.
use ia_lab.Prelude.{
  ℕ, String, ◌≡◌, refl, sym, subst, Bool, true, false, Option, eq_iff, str_eq, if◌then◌else◌,
  Bool-cases, inl, inr,
}
use ia_lab.Prelude.Json.{Json, Fields}
use ia_lab.Task.State.{TaskState, created, queued}
use ia_lab.Task.Model.{Task, Db, Result, ok}
use ia_lab.Task.Store.{
  update_task_state, finalize_task, queue_task_for_launch, archive_task, unarchive_task,
  update_task_results, patch_task_metadata,
}
use ia_lab.Task.Store.Create.{CreateTaskParams, new_task, insert_task, create_task}
use ia_lab.Task.Store.Approvals.{request_approval, resolve_approval}
use ia_lab.Task.Laws.Results.{ok_injective}
use ia_lab.Task.Laws.Audit.{logged, IsAudited, transition-IsAudited}
use ia_lab.Task.Laws.Audit.Moves.{
  rewrite-IsAudited, update_task_state-IsAudited, finalize_task-IsAudited,
  queue_task_for_launch-IsAudited, request_approval-IsAudited, resolve_approval-IsAudited,
}

-- The operations of the store, each with its arguments.
pub data Operation : Type 0 where
  create : CreateTaskParams → String → String → Operation
  update : String → TaskState → String → String → Operation
  finalize : String → TaskState → String → String → Option Json → Option String → Operation
  launch : String → String → String → Operation
  request : String → String → String → String → ℕ → String → String → Fields → Operation
  resolve : String → Bool → String → Operation
  archive : String → Operation
  unarchive : String → Operation
  save_results : String → Json → Operation
  patch : String → Fields → Operation

unfoldable pub run : Operation → ℕ → Db → Result Db
run (create p k c) now db = ok (create_task p k c now db)
run (update k target actor reason) now db = update_task_state k target actor reason now db
run (finalize k target actor reason results error) now db =
    finalize_task k target actor reason results error now db
run (launch k actor reason) now db = queue_task_for_launch k actor reason now db
run (request a k action target ttl actor reason p) now db =
    request_approval a k action target ttl actor reason p now db
run (resolve a approve operator) now db = resolve_approval a approve operator now db
run (archive k) now db = ok (archive_task k now db)
run (unarchive k) now db = ok (unarchive_task k now db)
run (save_results k results) now db = ok (update_task_results k results now db)
run (patch k p) now db = ok (patch_task_metadata k p now db)

-- uuid.NewString gives an identifier that no record of the log names.
abbrev pub IsFresh : Operation → Db → Type 0
IsFresh (create p k c) db = logged k db.transitions ≡ created
IsFresh _ db = Unit

insert_task-IsAudited :
    (t : Task) (db : Db)
    → t.state ≡ logged t.id db.transitions
    → IsAudited db
    → IsAudited (insert_task t db)
unfolding insert_task
insert_task-IsAudited t db e h = record {
  current = λ j. elim (Bool-cases (str_eq t.id j)) [
    | inl same ↦ rw same (subst (λ i. t.state ≡ logged i db.transitions) ((eq_iff t.id j).0 same) e)
    | inr other ↦ rw other (h.current j)
  ];
  chained = h.chained;
}

new_task-IsAudited :
    (p : CreateTaskParams) (k c : String) (now : ℕ) (db : Db)
    → logged k db.transitions ≡ created
    → IsAudited db
    → IsAudited (insert_task (new_task p k c now) db)
unfolding new_task
new_task-IsAudited p k c now db fresh h = insert_task-IsAudited _ db (sym fresh) h

transitions-insert_task : (t : Task) (db : Db) → (insert_task t db).transitions ≡ db.transitions
unfolding insert_task
transitions-insert_task t db = refl

if-IsAudited : (b : Bool) (x y : Db) → IsAudited x → IsAudited y → IsAudited (if b then x else y)
if-IsAudited true x y h k = h
if-IsAudited false x y h k = k

create_task-IsAudited :
    (p : CreateTaskParams) (k c : String) (now : ℕ) (db : Db)
    → logged k db.transitions ≡ created
    → IsAudited db
    → IsAudited (create_task p k c now db)
unfolding create_task
create_task-IsAudited p k c now db fresh h =
    if-IsAudited p.queue_on_create _ _
      (transition-IsAudited k created queued _ _ now _ (new_task-IsAudited p k c now db fresh h)
        (rw (transitions-insert_task (new_task p k c now) db) (sym fresh)))
      (new_task-IsAudited p k c now db fresh h)

patch_task_metadata-IsAudited :
    (k : String) (p : Fields) (now : ℕ) (db : Db)
    → IsAudited db
    → IsAudited (patch_task_metadata k p now db)
unfolding patch_task_metadata
patch_task_metadata-IsAudited k Fields.end now db h = h
patch_task_metadata-IsAudited k (Fields.field key v p) now db h =
    rewrite-IsAudited k _ db (record { same_id = λ t. refl; same_state = λ t. refl }) h

-- If the audit log is in step with the rows, and a created task gets a fresh identifier, it is
-- so after any creation, transition, finalisation, launch, approval request or decision,
-- archiving, saving of results or metadata that succeeds: the newest record of each task names
-- its state, and each record starts where the one before it ended.
pub run-IsAudited :
    (o : Operation) (now : ℕ) (db db' : Db)
    → IsFresh o db
    → IsAudited db
    → run o now db ≡ ok db'
    → IsAudited db'
unfolding run archive_task unarchive_task update_task_results
run-IsAudited (create p k c) now db db' fresh h e =
    subst IsAudited (ok_injective e) (create_task-IsAudited p k c now db fresh h)
run-IsAudited (update k target actor reason) now db db' fresh h e =
    update_task_state-IsAudited k target actor reason now db db' h e
run-IsAudited (finalize k target actor reason results error) now db db' fresh h e =
    finalize_task-IsAudited k target actor reason results error now db db' h e
run-IsAudited (launch k actor reason) now db db' fresh h e =
    queue_task_for_launch-IsAudited k actor reason now db db' h e
run-IsAudited (request a k action target ttl actor reason p) now db db' fresh h e =
    request_approval-IsAudited a k action target ttl actor reason p now db db' h e
run-IsAudited (resolve a approve operator) now db db' fresh h e =
    resolve_approval-IsAudited a approve operator now db db' h e
run-IsAudited (archive k) now db db' fresh h e =
    subst IsAudited (ok_injective e)
      (rewrite-IsAudited k _ db (record { same_id = λ t. refl; same_state = λ t. refl }) h)
run-IsAudited (unarchive k) now db db' fresh h e =
    subst IsAudited (ok_injective e)
      (rewrite-IsAudited k _ db (record { same_id = λ t. refl; same_state = λ t. refl }) h)
run-IsAudited (save_results k results) now db db' fresh h e =
    subst IsAudited (ok_injective e)
      (rewrite-IsAudited k _ db (record { same_id = λ t. refl; same_state = λ t. refl }) h)
run-IsAudited (patch k p) now db db' fresh h e =
    subst IsAudited (ok_injective e) (patch_task_metadata-IsAudited k p now db h)
