-- ===== src/Initiative/Objectives/Cancelled.antt =====
-- internal/orchestratorgo/httpapi/objectives.go: what cancelSupersededObjectiveDependents does to the
-- tasks of the superseded work items.
use ia_lab.Prelude.{
  ℕ, ◌≡◌, ◌⊎◌, inl, inr, refl, sym, ap, subst, ◌∙◌, String, Bool, true, false, Option, none, some,
  List, Any, Any-map, arith, Bool-cases, eq_iff, eq_refl, str_eq, some_injective, if_true, if_false,
  if◌then◌else◌,
}
use mathlib.Core.Option
use ia_lab.Prelude.Json
use ia_lab.Prelude.Json.{Json, Fields, get-put, merge}
use ia_lab.Task.State.{
  TaskState, in_progress, review, retrying, completed, failed, cancelled, is_valid_transition,
}
use ia_lab.Task.Model.{Task, Db, ok, get_task}
use ia_lab.Task.Store.{
  cancel_task, update_task_state, patch_task_metadata, transition_task_state_tx, stamp_transition,
}
use ia_lab.Task.Laws.Results.{ok_injective, check-eq-ok, load_task-eq-ok}
use ia_lab.Task.Laws.Rows.{get_task-update_task}
use ia_lab.Initiative.Model.{LinkedTask}
use ia_lab.Initiative.Objectives.{is_cancelable, work_item_id, superseded_patch, cancel_superseded}

-- The task is cancelled and marked as superseded.
abbrev pub IsTakenBack : String → Db → Type 0
IsTakenBack k db =
    (t : Task) × (get_task k db.tasks ≡ some t)
    × (t.state ≡ cancelled)
    × (Json.get "superseded_by_repair_cycle" t.metadata ≡ some (Json.bool true))

-- The states of a task that runs or has ended.
abbrev pub is_under_way : TaskState → Bool
is_under_way in_progress = true
is_under_way review = true
is_under_way retrying = true
is_under_way completed = true
is_under_way failed = true
is_under_way cancelled = true
is_under_way _ = false

-- A work item with this identifier is taken back, or was under way before.
abbrev pub IsSettled : List LinkedTask → Db → String → Type 0
IsSettled items db x =
    Any
      (λ j. (work_item_id j ≡ x) × ((is_under_way j.task.state ≡ true) ⊎ IsTakenBack j.task.id db))
      items

-- The row after its cancellation.
abbrev taken_back : ℕ → ℕ → Task → Task
taken_back iteration now t =
    stamp_transition cancelled now
      (record t { metadata = Json.merge t.metadata (superseded_patch iteration); updated_at = now })

taken_back-state : (iteration now : ℕ) (t : Task) → (taken_back iteration now t).state ≡ cancelled
unfolding stamp_transition
taken_back-state iteration now t = refl

taken_back-marked :
    (iteration now : ℕ) (t : Task)
    → Json.get "superseded_by_repair_cycle" (taken_back iteration now t).metadata
      ≡ some (Json.bool true)
unfolding stamp_transition merge
taken_back-marked iteration now t = simp get-put

cancelled_stays :
    (s : TaskState) → is_valid_transition s cancelled ≡ true → s ≡ cancelled → false ≡ true
unfolding is_valid_transition
cancelled_stays s h e = ground arith

-- A cancellation that succeeds: the row was there, not cancelled, and is taken back; all others stay.
abbrev Cancels : ℕ → ℕ → String → Db → Db → Type 0
Cancels iteration now k db db' =
    ((t : Task) × (get_task k db.tasks ≡ some t) × (is_valid_transition t.state cancelled ≡ true))
    × ((j : String)
        → get_task j db'.tasks ≡ (
            if str_eq k j
            then Option.map (taken_back iteration now) (get_task j db.tasks)
            else get_task j db.tasks))

cancel_task-rows :
    (k actor reason : String) (now : ℕ) (d db' : Db)
    → cancel_task k actor reason now d ≡ ok db'
    → ((t : Task) × (get_task k d.tasks ≡ some t) × (is_valid_transition t.state cancelled ≡ true))
      × ((j : String)
          → get_task j db'.tasks ≡ (
              if str_eq k j
              then Option.map (stamp_transition cancelled now) (get_task j d.tasks)
              else get_task j d.tasks))
unfolding cancel_task update_task_state transition_task_state_tx stamp_transition
cancel_task-rows k actor reason now d db' h =
    let (u, found, h1) = load_task-eq-ok k d _ h in
    let (valid, h2) = check-eq-ok _ _ _ h1 in
    (
      (u, found, valid),
      λ j.
          ap (λ x. get_task j x.tasks) (sym (ok_injective h2))
          ∙ get_task-update_task k j (stamp_transition cancelled now) d.tasks (λ t. refl),
    )

-- The patch of the metadata.
abbrev marked : ℕ → ℕ → Task → Task
marked iteration now t = record t {
  metadata = Json.merge t.metadata (superseded_patch iteration);
  updated_at = now;
}

patch_rows :
    (iteration now : ℕ) (k j : String) (db : Db)
    → get_task j (patch_task_metadata k (superseded_patch iteration) now db).tasks ≡ (
        if str_eq k j
        then Option.map (marked iteration now) (get_task j db.tasks)
        else get_task j db.tasks)
unfolding patch_task_metadata
patch_rows iteration now k j db =
    get_task-update_task k j (marked iteration now) db.tasks (λ t. refl)

map_twice :
    (f g : Task → Task) (b : Bool) (o p : Option Task)
    → p ≡ (if b then Option.map g o else o)
    → (if b then Option.map f p else p) ≡ (if b then Option.map (λ t. f (g t)) o else o)
map_twice f g true none p e = rw e
map_twice f g true (some t) p e = rw e
map_twice f g false o p e = e

was_there :
    (iteration now : ℕ) (o : Option Task) (u : Task)
    → Option.map (marked iteration now) o ≡ some u
    → is_valid_transition u.state cancelled ≡ true
    → (t : Task) × (o ≡ some t) × (is_valid_transition t.state cancelled ≡ true)
was_there iteration now none u e valid = cc e
was_there iteration now (some t) u e valid = (
  t,
  refl,
  subst (λ x. is_valid_transition x.state cancelled ≡ true) (sym (some_injective e)) valid,
)

cancel-Cancels :
    (iteration : ℕ) (reason : String) (now : ℕ) (k : String) (db db' : Db)
    → cancel_task k "objectives:auto" reason now
        (patch_task_metadata k (superseded_patch iteration) now db)
      ≡ ok db'
    → Cancels iteration now k db db'
cancel-Cancels iteration reason now k db db' h =
    let patched = patch_task_metadata k (superseded_patch iteration) now db in
    let ((u, found, valid), rows) = cancel_task-rows k "objectives:auto" reason now patched db' h in
    let own : Option.map (marked iteration now) (get_task k db.tasks) ≡ some u =
      sym (if_true (str_eq k k) _ _ (eq_refl k)) ∙ sym (patch_rows iteration now k k db) ∙ found in
    (
      was_there iteration now (get_task k db.tasks) u own valid,
      λ j.
          rows j
          ∙ map_twice (stamp_transition cancelled now) (marked iteration now) (str_eq k j)
              (get_task j db.tasks) (get_task j patched.tasks) (patch_rows iteration now k j db),
    )

Cancels-new :
    (iteration now : ℕ) (k : String) (db db' : Db)
    → Cancels iteration now k db db'
    → IsTakenBack k db'
Cancels-new iteration now k db db' ((t, there, valid), rows) = (
  taken_back iteration now t,
  rows k ∙ if_true (str_eq k k) _ _ (eq_refl k) ∙ ap (Option.map (taken_back iteration now)) there,
  taken_back-state iteration now t,
  taken_back-marked iteration now t,
)

Cancels-keeps :
    (iteration now : ℕ) (k j : String) (db db' : Db)
    → Cancels iteration now k db db'
    → IsTakenBack j db
    → IsTakenBack j db'
Cancels-keeps iteration now k j db db' ((t, there, valid), rows) (u, found, gone, marked_so) =
    elim (Bool-cases (str_eq k j)) [
      | inr other ↦ (u, rows j ∙ if_false (str_eq k j) _ _ other ∙ found, gone, marked_so)
      | inl same ↦
          let one : t ≡ u =
            some_injective
              (sym there ∙ ap (λ x. get_task x db.tasks) ((eq_iff k j).0 same) ∙ found) in
          cc (cancelled_stays t.state valid (ap (λ x. x.state) one ∙ gone))
    ]

not_cancelable : (s : TaskState) → is_cancelable s ≡ false → is_under_way s ≡ true
not_cancelable s h = ground arith

-- One superseded item, and what it leaves of the others.
pub cancel_superseded-settles :
    (iteration : ℕ) (reason : String) (now : ℕ) (i : LinkedTask) (db db' : Db)
    → cancel_superseded iteration reason now i db ≡ ok db'
    → ((is_under_way i.task.state ≡ true) ⊎ IsTakenBack i.task.id db')
      × ((j : String) → IsTakenBack j db → IsTakenBack j db')
cancel_superseded-settles iteration reason now i db db' h =
    elim (Bool-cases (is_cancelable i.task.state)) [
      | inr kept ↦ (
        inl (not_cancelable i.task.state kept),
        λ j gone. subst (IsTakenBack j) (ok_injective (rw kept at h)) gone,
      )
      | inl open_still ↦
          let effect = cancel-Cancels iteration reason now i.task.id db db' (rw open_still at h) in
          (
            inr (Cancels-new iteration now i.task.id db db' effect),
            λ j gone. Cancels-keeps iteration now i.task.id j db db' effect gone,
          )
    ]

pub IsSettled-keeps :
    (items : List LinkedTask) (db db' : Db) (x : String)
    → ((j : String) → IsTakenBack j db → IsTakenBack j db')
    → IsSettled items db x
    → IsSettled items db' x
IsSettled-keeps items db db' x keeps =
    Any-map
      (λ j. (work_item_id j ≡ x) × ((is_under_way j.task.state ≡ true) ⊎ IsTakenBack j.task.id db))
      (λ j. (work_item_id j ≡ x) × ((is_under_way j.task.state ≡ true) ⊎ IsTakenBack j.task.id db'))
      items
      (λ j h. (h.0, elim h.1 [ inl early ↦ inl early | inr gone ↦ inr (keeps j.task.id gone) ]))
