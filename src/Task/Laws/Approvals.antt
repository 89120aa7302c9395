-- ===== src/Task/Laws/Approvals.antt =====
-- ResolveApproval: a decision and a second one on the same approval.
use mathlib.Core.Option
use ia_lab.Prelude.{
  ℕ, String, ◌≡◌, refl, ap, subst, ◌∙◌, Bool, true, false, none, some, eq_refl, str_append,
  if◌then◌else◌,
}
use ia_lab.Prelude.Json
use ia_lab.Prelude.Json.{Json, Fields, get-put, get-delete}
use ia_lab.Task.State.{
  queued, cancelled, waiting_approval, pending, approved, rejected, is_pending, is_valid_transition,
}
use ia_lab.Task.Model.{
  Task, Approval, Db, ok, err, approval_already_resolved, get_task, get_approval,
}
use ia_lab.Task.Store.{stamp_transition, transition_task_state_tx}
use ia_lab.Task.Store.Approvals.{
  set_metadata, close_approval, decided_status, decided_state, decided_metadata, decided_reason,
  write_decision, resolve_approval,
}
use ia_lab.Task.Laws.Results.{check-eq-ok, load_task-eq-ok, load_approval-eq-ok, ok_injective}
use ia_lab.Task.Laws.Rows.{get_task-update_task_self, get_approval-update_approval}

closed_status : (approve : Bool) → is_pending (decided_status approve) ≡ false
closed_status true = refl
closed_status false = refl

-- An approval with this identifier is in the store, and is not pending.
IsResolved : String → Db → Type 0
IsResolved k db =
    (a : Approval) × (get_approval k db.approvals ≡ some a) × (is_pending a.status ≡ false)

resolve_approval-IsResolved :
    (k : String) (approve : Bool) (operator : String) (now : ℕ) (db db' : Db)
    → resolve_approval k approve operator now db ≡ ok db'
    → IsResolved k db'
unfolding resolve_approval close_approval transition_task_state_tx IsResolved
resolve_approval-IsResolved k approve operator now db db' e =
    let (a, found_approval, e0) = load_approval-eq-ok k db _ e in
    let (open_still, e1) = check-eq-ok _ _ _ e0 in
    let (t, found, e2) = load_task-eq-ok a.task_id db _ e1 in
    let (valid, e3) = check-eq-ok _ _ _ e2 in
    subst (IsResolved k) (ok_injective e3) (
      close_approval (decided_status approve) operator now a,
      get_approval-update_approval k k (close_approval (decided_status approve) operator now)
            db.approvals (λ b. refl)
          ∙ rw (eq_refl, found_approval),
      closed_status approve,
    )

resolve_approval_of_IsResolved :
    (k : String) (approve : Bool) (operator : String) (now : ℕ) (db : Db)
    → IsResolved k db
    → resolve_approval k approve operator now db ≡ err approval_already_resolved
unfolding resolve_approval IsResolved
resolve_approval_of_IsResolved k approve operator now db (a, found, closed) = rw (found, closed)

-- After a decision on an approval that succeeded, a second decision on it, whatever it says
-- and whoever takes it, is refused as already resolved.
pub resolve_approval_once :
    (k : String) (approve again : Bool) (operator other : String) (now later : ℕ) (db db' : Db)
    → resolve_approval k approve operator now db ≡ ok db'
    → resolve_approval k again other later db' ≡ err approval_already_resolved
resolve_approval_once k approve again operator other now later db db' e =
    resolve_approval_of_IsResolved k again other later db'
      (resolve_approval-IsResolved k approve operator now db db' e)

-- The row that a decision leaves behind.
abbrev decided_row : Bool → ℕ → Task → Task
decided_row approve now t =
    stamp_transition (decided_state approve) now
      (set_metadata (decided_metadata approve t.metadata) t)

decision_valid :
    (approve : Bool) → is_valid_transition waiting_approval (decided_state approve) ≡ true
unfolding is_valid_transition
decision_valid true = refl
decision_valid false = refl

-- The database after the decision.
decided_db : String → Bool → String → ℕ → Approval → Task → Db → Db
decided_db k approve operator now a t db =
    transition_task_state_tx a.task_id t.state (decided_state approve)
      (str_append "operator:" operator) (decided_reason approve) now
      (write_decision k approve operator now a t db)

resolve_approval-eq_decided :
    (k : String) (approve : Bool) (operator : String) (now : ℕ) (db : Db) (a : Approval) (t : Task)
    → get_approval k db.approvals ≡ some a
    → a.status ≡ pending
    → get_task a.task_id db.tasks ≡ some t
    → t.state ≡ waiting_approval
    → resolve_approval k approve operator now db ≡ ok (decided_db k approve operator now a t db)
unfolding resolve_approval decided_db
resolve_approval-eq_decided k approve operator now db a t found open_still there waits =
    rw found (simp (open_still, there, waits, decision_valid approve))

granted :
    (approve : Bool) (m : Fields)
    → Json.get "approval_granted" (decided_metadata approve m) ≡ some (Json.bool approve)
unfolding decided_metadata
granted true m = simp (get-delete, get-put)
granted false m = simp get-put

not_requested : (m : Fields) → Json.get "approval_requested" (decided_metadata true m) ≡ none
unfolding decided_metadata
not_requested m = simp get-delete

approvals-decided_db :
    (k : String) (approve : Bool) (operator : String) (now : ℕ) (db : Db) (a : Approval) (t : Task)
    → get_approval k db.approvals ≡ some a
    → get_approval k (decided_db k approve operator now a t db).approvals
      ≡ some (close_approval (decided_status approve) operator now a)
unfolding decided_db write_decision transition_task_state_tx
approvals-decided_db k approve operator now db a t found =
    get_approval-update_approval k k (close_approval (decided_status approve) operator now)
      db.approvals (λ b. refl)
    ∙ rw (eq_refl, found)

tasks-decided_db :
    (k : String) (approve : Bool) (operator : String) (now : ℕ) (db : Db) (a : Approval) (t : Task)
    → get_task a.task_id db.tasks ≡ some t
    → get_task a.task_id (decided_db k approve operator now a t db).tasks
      ≡ some (decided_row approve now t)
unfolding decided_db write_decision transition_task_state_tx stamp_transition
tasks-decided_db k approve operator now db a t there =
    get_task-update_task_self a.task_id (stamp_transition (decided_state approve) now) _ (λ b. refl)
    ∙ ap (Option.map (stamp_transition (decided_state approve) now)) (
        get_task-update_task_self a.task_id (set_metadata (decided_metadata approve t.metadata))
          db.tasks (λ b. refl)
        ∙ ap (Option.map (set_metadata (decided_metadata approve t.metadata))) there)

-- Deciding a pending approval of a waiting task succeeds, closes its approval as approved or
-- rejected, with operator and time, queues or cancels the task, records the decision in its
-- metadata, and drops the open request there if it was granted.
pub resolve_approval_effect :
    (k : String) (approve : Bool) (operator : String) (now : ℕ) (db : Db) (a : Approval) (t : Task)
    → get_approval k db.approvals ≡ some a
    → a.status ≡ pending
    → get_task a.task_id db.tasks ≡ some t
    → t.state ≡ waiting_approval
    → (db' : Db) × (resolve_approval k approve operator now db ≡ ok db')
      × (a' : Approval) × (get_approval k db'.approvals ≡ some a')
      × (a'.status ≡ (if approve then approved else rejected))
      × (a'.operator ≡ some operator)
      × (a'.resolved_at ≡ some now)
      × (a'.task_id ≡ a.task_id)
      × (t' : Task) × (get_task a.task_id db'.tasks ≡ some t')
      × (t'.state ≡ (if approve then queued else cancelled))
      × (Json.get "approval_granted" t'.metadata ≡ some (Json.bool approve))
      × (approve ≡ true → Json.get "approval_requested" t'.metadata ≡ none)
unfolding stamp_transition close_approval
resolve_approval_effect k approve operator now db a t found open_still there waits = (
  decided_db k approve operator now a t db,
  resolve_approval-eq_decided k approve operator now db a t found open_still there waits,
  close_approval (decided_status approve) operator now a,
  approvals-decided_db k approve operator now db a t found,
  refl,
  refl,
  refl,
  refl,
  decided_row approve now t,
  tasks-decided_db k approve operator now db a t there,
  refl,
  granted approve t.metadata,
  λ yes_granted. rw yes_granted (not_requested t.metadata),
)
