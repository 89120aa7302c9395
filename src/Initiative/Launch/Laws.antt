-- ===== src/Initiative/Launch/Laws.antt =====
-- Launches in a workspace of a local bridge, and the change of a task's mode.
use ia_lab.Prelude.{
  ℕ, ◌≡◌, ◌≢◌, refl, sym, ap, ◌∙◌, subst, String, Bool, true, false, Option, none, some, List, [],
  ◌∷◌, is_some, arith, Bool-cases, Option-cases, inl, inr, trim_space, str_eq, eq_iff,
  some_injective,
}
use mathlib.Core.Option
use ia_lab.Task.State.{local, is_local, queued}
use ia_lab.Task.Model.{Task, Db, Result, ok, err, get_task}
use ia_lab.Task.Store.{queue_task_for_launch, stamp_transition, transition_task_state_tx}
use ia_lab.Task.Store.Create.{update_task_launch_mode, set_target}
use ia_lab.Task.Laws.Results.{check-eq-ok, load_task-eq-ok, ok_injective}
use ia_lab.Task.Laws.Rows.{get_task-update_task_self}
use ia_lab.Initiative.Contracts.{
  ExecutionPolicy, is_recognized_task_launch_mode, validate_task_launch_against_policy, is_nothing,
  resolve_execution_policy, allows_mode,
}
use ia_lab.Initiative.Model.{
  execution, LinkedTask, Rows, update_initiative, list_initiative_tasks,
  reconcile_initiative_execution, reconcile_items, update_links,
}
use ia_lab.Initiative.Phases.{done}
use ia_lab.Initiative.Launch.{
  Launching, launching, is_ready, launch_task, launch_tasks, launch_initiative_tasks,
  queue_unless_manual, queue_launched, enqueue_remote, launch_mode, select_initiative_tasks,
  finish_launch, update_initiative_task_mode, set_launch_mode,
}

-- What making a task local does to its row.
abbrev retarget : ℕ → Task → Task
retarget now t = record t { execution_target = local; updated_at = now }

-- The row of a task that was made local and then queued is local.
local_row :
    (k actor reason : String) (now : ℕ) (db db' : Db) (t : Task)
    → queue_task_for_launch k actor reason now (set_target k local now db) ≡ ok db'
    → get_task k db'.tasks ≡ some t
    → is_local t.execution_target ≡ true
unfolding queue_task_for_launch transition_task_state_tx stamp_transition
local_row k actor reason now db db' t e there =
    let (t1, found, e1) = load_task-eq-ok k (set_target k local now db) _ e in
    let (_, e2) = check-eq-ok _ _ _ e1 in
    let rows : get_task k db'.tasks ≡ some (stamp_transition queued now t1) =
      ap (λ d. get_task k d.tasks) (sym (ok_injective e2))
      ∙ get_task-update_task_self k (stamp_transition queued now) (set_target k local now db).tasks
          (λ u. refl)
      ∙ ap (Option.map (stamp_transition queued now)) found in
    let stamped : stamp_transition queued now t1 ≡ t = some_injective (sym rows ∙ there) in
    let target : is_local t1.execution_target ≡ true = made_local k now db t1 found in
    subst (λ u. is_local u.execution_target ≡ true) stamped target
  where
    made_local :
        (j : String) (at : ℕ) (d : Db) (u : Task)
        → get_task j (set_target j local at d).tasks ≡ some u
        → is_local u.execution_target ≡ true
    made_local j at d u found =
        let rows = get_task-update_task_self j (retarget at) d.tasks (λ t. refl) in
        elim (Option-cases (get_task j d.tasks)) [
          | inl absent ↦ cc (rw absent at (sym rows ∙ found))
          | inr (v, there) ↦
              subst (λ x. is_local x.execution_target ≡ true)
                (some_injective (sym (rows ∙ ap (Option.map (retarget at)) there) ∙ found)) refl
        ]

-- A launch of one task in a mode that the policy of a local workspace allows adds nothing to the queues.
queue_launched-enqueued :
    (redis : String → Bool) (k : String) (now : ℕ) (db : Db) (l : Launching)
    → (queue_launched redis k
        (queue_task_for_launch k "api:initiative_launch" "Queued from initiative launch" now
          (set_target k local now db))
        l).enqueued
      ≡ l.enqueued
queue_launched-enqueued redis k now db l =
    by_result
      (queue_task_for_launch k "api:initiative_launch" "Queued from initiative launch" now
        (set_target k local now db))
      refl
  where
    by_row :
        (db' : Db) (found : Option Task)
        → ((t : Task) → found ≡ some t → is_local t.execution_target ≡ true)
        → (enqueue_remote redis found (record l { rows = record l.rows { db = db' } })).enqueued
          ≡ l.enqueued
    by_row db' none here = refl
    by_row db' (some t) here = rw (here t refl)

    by_result :
        (res : Result Db)
        → queue_task_for_launch k "api:initiative_launch" "Queued from initiative launch" now
            (set_target k local now db)
          ≡ res
        → (queue_launched redis k res l).enqueued ≡ l.enqueued
    by_result (err _) _ = refl
    by_result (ok db') e =
        by_row db' (get_task k db'.tasks) (λ t there. local_row k _ _ now db db' t e there)

-- A policy that does not allow remote launches refuses one.
no_remote_launch :
    (policy : ExecutionPolicy) (mode : String)
    → allows_mode policy "agent_remote" ≡ false
    → is_some (validate_task_launch_against_policy policy mode) ≡ false
    → str_eq mode "agent_remote" ≡ false
unfolding validate_task_launch_against_policy allows_mode trim_space
no_remote_launch policy mode no_remote allowed = elim (Bool-cases (str_eq mode "agent_remote")) [
  | inr other ↦ other
  | inl e ↦
      let refused : is_some (validate_task_launch_against_policy policy "agent_remote") ≡ true =
        rw no_remote in
      cc (
        refused,
        subst (λ m. is_some (validate_task_launch_against_policy policy m) ≡ false)
            ((eq_iff _ _).0 e) allowed,
      )
]

queue_unless_manual-enqueued :
    (redis : String → Bool) (k mode : String) (now : ℕ) (db : Db) (l : Launching)
    → str_eq mode "agent_remote" ≡ false
    → (queue_unless_manual redis k mode now (update_task_launch_mode k mode now db) l).enqueued
      ≡ l.enqueued
unfolding update_task_launch_mode
queue_unless_manual-enqueued redis k mode now db l not_remote =
    elim (Bool-cases (str_eq mode "agent_local")) [
      | inl here ↦
          subst
            (λ m.
              (queue_unless_manual redis k m now (update_task_launch_mode k m now db) l).enqueued
              ≡ l.enqueued)
            (sym ((eq_iff _ _).0 here))
            (queue_launched-enqueued redis k now db
              (record l { rows = record l.rows { db = set_target k local now db } }))
      | inr away ↦ elim (Bool-cases (str_eq mode "manual")) [
        | inr odd ↦ rw (away, not_remote, odd)
        | inl manual ↦
            subst
              (λ m.
                (queue_unless_manual redis k m now (update_task_launch_mode k m now db) l).enqueued
                ≡ l.enqueued)
              (sym ((eq_iff _ _).0 manual)) refl
      ]
    ]

launch_task-enqueued :
    (policy : ExecutionPolicy) (redis : String → Bool) (now : ℕ) (k mode : String) (l : Launching)
    → allows_mode policy "agent_remote" ≡ false
    → (launch_task policy redis now k mode l).enqueued ≡ l.enqueued
unfolding launch_task
launch_task-enqueued policy redis now k mode l no_remote =
    elim (Bool-cases (is_recognized_task_launch_mode mode)) [
      | inr unknown ↦ rw unknown
      | inl known ↦ elim (Bool-cases (is_some (validate_task_launch_against_policy policy mode))) [
        | inl forbidden ↦ rw (known, forbidden)
        | inr allowed ↦
            rw (known, allowed)
              (queue_unless_manual-enqueued redis k mode now l.rows.db _
                (no_remote_launch policy mode no_remote allowed))
      ]
    ]

launch_tasks-enqueued :
    (policy : ExecutionPolicy) (overrides : String → String) (redis : String → Bool) (now : ℕ)
    → allows_mode policy "agent_remote" ≡ false
    → (items : List LinkedTask) (l : Launching)
    → (launch_tasks policy overrides redis now items l).enqueued ≡ l.enqueued
unfolding launch_tasks
launch_tasks-enqueued policy overrides redis now no_remote [] l = refl
launch_tasks-enqueued policy overrides redis now no_remote (i ∷ items) l =
    let one =
      launch_task-enqueued policy redis now i.link.task_id (launch_mode overrides i) l no_remote in
    let rest =
      launch_tasks-enqueued policy overrides redis now no_remote items
        (launch_task policy redis now i.link.task_id (launch_mode overrides i) l) in
    elim (Bool-cases
      (is_some (launch_task policy redis now i.link.task_id (launch_mode overrides i) l).failure)) [
        | inr goes_on ↦ rw goes_on (rest ∙ one)
        | inl ended ↦ rw (ended, one)
      ]

-- If the policy of the workspace does not allow remote launches, a launch puts no task on the
-- queues of the remote workers, whatever modes the request asks for.
pub launch_local_enqueues_none :
    (root : String) (task_ids groups : List String) (overrides : String → String)
    (redis : String → Bool) (now : ℕ) (r : Rows)
    → allows_mode (resolve_execution_policy root r.item.workspace_root) "agent_remote" ≡ false
    → (launch_initiative_tasks root task_ids groups overrides redis now r).0.enqueued ≡ []
unfolding launch_initiative_tasks
launch_local_enqueues_none root task_ids groups overrides redis now r no_remote =
    elim (Bool-cases (is_ready r.item.status)) [
      | inr early ↦ rw early
      | inl ready ↦
          elim (Bool-cases
            (is_nothing (select_initiative_tasks (list_initiative_tasks r) task_ids groups))) [
              | inr some_selected ↦
                  rw (ready, some_selected)
                    (finish_launch-enqueued _
                      ∙ launch_tasks-enqueued (resolve_execution_policy root r.item.workspace_root)
                          overrides redis now no_remote
                          (select_initiative_tasks (list_initiative_tasks r) task_ids groups)
                          (launching r))
              | inl nothing ↦ rw (ready, nothing)
            ]
    ]
  where
    finish_launch-enqueued : (l : Launching) → (finish_launch l).0.enqueued ≡ l.enqueued
    finish_launch-enqueued l = elim (Option-cases l.failure) [ inl e ↦ rw e | inr (code, e) ↦ rw e ]

pub reconcile_items-lists :
    (items : List LinkedTask) (r : Rows)
    → list_initiative_tasks (reconcile_items items r) ≡ list_initiative_tasks r
unfolding list_initiative_tasks
reconcile_items-lists [] r = refl
reconcile_items-lists (i ∷ items) r = refl

pub reconcile_items-moves :
    (items : List LinkedTask) (r : Rows)
    → items ≢ []
    → ((reconcile_items items r).item.current_phase ≡ execution)
      × ((reconcile_items items r).reviews ≡ r.reviews)
unfolding update_initiative
reconcile_items-moves [] r some_items = elim (some_items refl) [ ]
reconcile_items-moves (i ∷ items) r some_items = (refl, refl)

-- An accepted change of mode, seen from the update of the task's row.
set_launch_mode-done :
    (k mode : String) (now : ℕ) (r r' : Rows) (res : Result Db)
    → set_launch_mode k mode now r res ≡ (r', done)
    → list_initiative_tasks r' ≢ []
    → (r'.item.current_phase ≡ execution) × (r'.reviews ≡ r.reviews)
unfolding reconcile_initiative_execution
set_launch_mode-done k mode now r r' (err _) e tasks = cc e
set_launch_mode-done k mode now r r' (ok db) e tasks =
    let before = record r { links = update_links k mode r.links; db = db } in
    let moved : reconcile_initiative_execution before ≡ r' = ap (λ p. p.0) e in
    subst (λ x. (x.item.current_phase ≡ execution) × (x.reviews ≡ r.reviews)) moved
      (reconcile_items-moves (list_initiative_tasks before) before (λ nothing. tasks (
        ap list_initiative_tasks (sym moved)
        ∙ reconcile_items-lists (list_initiative_tasks before) before
        ∙ nothing)))

-- An accepted change of the mode of a task puts an initiative that has tasks in the execution
-- phase, and adds no review.
pub update_initiative_task_mode_moves :
    (root k mode : String) (now : ℕ) (r r' : Rows)
    → update_initiative_task_mode root k mode now r ≡ (r', done)
    → list_initiative_tasks r' ≢ []
    → (r'.item.current_phase ≡ execution) × (r'.reviews ≡ r.reviews)
unfolding update_initiative_task_mode
update_initiative_task_mode_moves root k mode now r r' e tasks =
    set_launch_mode-done k (trim_space mode) now r r'
      (update_task_launch_mode k (trim_space mode) now r.db) (ground arith) tasks
