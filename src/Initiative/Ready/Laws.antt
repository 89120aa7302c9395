-- ===== src/Initiative/Ready/Laws.antt =====
-- internal/orchestratorgo/httpapi/objectives.go: what queueReadyObjectiveTasks puts on the queues.
use ia_lab.Prelude.{
  ◌≡◌, refl, sym, subst, ◌∙◌, String, Bool, true, false, ◌&&◌, ◌||◌, Option, none, some, List, [],
  ◌∷◌, ◌++◌, any, is_some, Bool-cases, inl, inr, arith, str_eq,
}
use ia_lab.Task.Model.{Task, Db, Result, ok, err, get_task, Enqueued}
use ia_lab.Task.Store.{fail_task, patch_task_metadata}
use ia_lab.Task.Laws.Rows.{id-get_task}
use ia_lab.Task.State.{AgentType, is_local}
use ia_lab.Initiative.Model.{LinkedTask, Rows, list_initiative_tasks}
use ia_lab.Initiative.Ready.{
  Ready, Around, ReadyError, after_failing, fail_due_to_time_budget, enqueue_remote_ready,
  enqueue_ready, queue_ready, ready_row, is_ready_item, ready_item, unless_failed, ready_items,
  queue_ready_objective_tasks, set_db, time_budget_exceeded, deadline_of,
}

abbrev pub is_enqueued : String → List Enqueued → Bool
is_enqueued k l = any (λ e. str_eq e.task_id k) l

-- The queues hold nothing new but, it may be, one task.
abbrev OnlyAdds : String → Ready → Ready → Type 0
OnlyAdds j x y =
    (k : String) → is_enqueued k y.enqueued ≡ true → (is_enqueued k x.enqueued || str_eq j k) ≡ true

any-append :
    (k : String) (l m : List Enqueued)
    → is_enqueued k (l ++ m) ≡ (is_enqueued k l || is_enqueued k m)
any-append k [] m = refl
any-append k (e ∷ l) m = ground (arith, any-append k l m)

same-OnlyAdds : (j : String) (x y : Ready) → y.enqueued ≡ x.enqueued → OnlyAdds j x y
same-OnlyAdds j x y e k there =
    let before : is_enqueued k x.enqueued ≡ true = subst (λ l. is_enqueued k l ≡ true) e there in
    rw before

fail_due_to_time_budget-enqueued :
    (a : Around) (t : Task) (x : Ready) → (fail_due_to_time_budget a t x).enqueued ≡ x.enqueued
unfolding fail_due_to_time_budget
fail_due_to_time_budget-enqueued a t x =
    elim (Bool-cases (is_some t.initiative_id && is_some (deadline_of a.parse t.metadata))) [
      | inr skipped ↦ rw skipped
      | inl stops ↦ rw stops (
          by_result (
            fail_task t.id "objectives:auto" a.stop_reason a.stop_reason (some a.stop_results) a.now
              (patch_task_metadata t.id a.stop_patch a.now x.rows.db)))
    ]
  where
    by_result :
        (res : Result Db)
        → (after_failing res
            (set_db (patch_task_metadata t.id a.stop_patch a.now x.rows.db) x)).enqueued
          ≡ x.enqueued
    by_result (err e) = refl
    by_result (ok db) = refl

enqueue_remote_ready-kept :
    (a : Around) (t : Task) (agent : Option AgentType) (x : Ready) (k : String)
    → is_enqueued k (enqueue_remote_ready a t agent x).enqueued ≡ true
    → (is_enqueued k x.enqueued || str_eq t.id k) ≡ true
enqueue_remote_ready-kept a t none x k there = rw there
enqueue_remote_ready-kept a t (some agent) x k there = elim (Bool-cases (a.redis t.id)) [
  | inr down ↦ let before : is_enqueued k x.enqueued ≡ true = rw down at there in rw before
  | inl up ↦
      let added : is_enqueued k
            (x.enqueued ++ record { task_id = t.id; agent = agent; priority = t.priority } ∷ [])
          ≡ true =
        rw up at there in
      or_false (is_enqueued k x.enqueued) (str_eq t.id k) (sym (any-append k x.enqueued _) ∙ added)
]
  where
    or_false : (b c : Bool) → (b || (c || false)) ≡ true → (b || c) ≡ true
    or_false b c e = ground arith

enqueue_ready-kept :
    (a : Around) (t : Task) (x : Ready) (k : String)
    → is_enqueued k (enqueue_ready a (some t) x).enqueued ≡ true
    → (is_enqueued k x.enqueued || str_eq t.id k) ≡ true
enqueue_ready-kept a t x k there = elim (Bool-cases (is_local t.execution_target)) [
  | inl here ↦ let before : is_enqueued k x.enqueued ≡ true = rw here at there in rw before
  | inr away ↦ enqueue_remote_ready-kept a t t.assigned_agent x k (rw away at there)
]

enqueue_ready-OnlyAdds :
    (a : Around) (j : String) (found : Option Task) (x : Ready)
    → ((t : Task) → found ≡ some t → t.id ≡ j)
    → OnlyAdds j x (enqueue_ready a found x)
enqueue_ready-OnlyAdds a j none x own k there = rw there
enqueue_ready-OnlyAdds a j (some t) x own k there =
    subst (λ i. (is_enqueued k x.enqueued || str_eq i k) ≡ true) (own t refl)
      (enqueue_ready-kept a t x k there)

queue_ready-OnlyAdds :
    (a : Around) (j : String) (res : Result Db) (x : Ready) → OnlyAdds j x (queue_ready a j res x)
queue_ready-OnlyAdds a j (err e) x k there = rw there
queue_ready-OnlyAdds a j (ok db) x k there =
    enqueue_ready-OnlyAdds a j (get_task j db.tasks) (set_db db x)
      (λ t found. id-get_task j db.tasks t found) k there

ready_row-OnlyAdds :
    (a : Around) (j : String) (found : Option Task) (x : Ready)
    → OnlyAdds j x (ready_row a j found x)
ready_row-OnlyAdds a j none x k there = rw there
ready_row-OnlyAdds a j (some t) x k there =
    elim (Bool-cases (time_budget_exceeded a.parse a.now t.metadata)) [
      | inl over ↦
          same-OnlyAdds j x (fail_due_to_time_budget a t x) (fail_due_to_time_budget-enqueued a t x)
            k (rw over at there)
      | inr within ↦
          queue_ready-OnlyAdds a j _ (set_db (patch_task_metadata j (a.patch t) a.now x.rows.db) x)
            k (rw within at there)
    ]

-- A task that the loop put on a queue is that of an item that was ready.
abbrev pub was_ready : List LinkedTask → String → LinkedTask → Bool
was_ready all k i = is_ready_item all i && str_eq i.link.task_id k

ready_item-enqueued :
    (a : Around) (all : List LinkedTask) (i : LinkedTask) (x : Ready) (k : String)
    → is_enqueued k (ready_item a all i x).enqueued ≡ true
    → (is_enqueued k x.enqueued || was_ready all k i) ≡ true
unfolding ready_item
ready_item-enqueued a all i x k there = elim (Bool-cases (is_ready_item all i)) [
  | inl ready ↦ rw ready (
      ready_row-OnlyAdds a i.link.task_id (get_task i.link.task_id x.rows.db.tasks) x k
        (rw ready at there))
  | inr waits ↦ let before : is_enqueued k x.enqueued ≡ true = rw waits at there in rw before
]

or_assoc : (a b c : Bool) → ((a || b) || c) ≡ true → (a || (b || c)) ≡ true
or_assoc a b c e = ground arith

unless_failed-enqueued :
    (k : String) (e : Option ReadyError) (now later : Ready) (before found : Bool)
    → (is_enqueued k now.enqueued ≡ true → before ≡ true)
    → (is_enqueued k later.enqueued ≡ true → (is_enqueued k now.enqueued || found) ≡ true)
    → is_enqueued k (unless_failed e now later).enqueued ≡ true
    → (before || found) ≡ true
unless_failed-enqueued k (some e) now later before found one rest there = rw (one there)
unless_failed-enqueued k none now later before found one rest there =
    by_first (is_enqueued k now.enqueued) one (rest there)
  where
    by_first :
        (b : Bool) → (b ≡ true → before ≡ true) → (b || found) ≡ true → (before || found) ≡ true
    by_first true one either = rw (one refl)
    by_first false one either = ground arith

ready_items-enqueued :
    (a : Around) (all items : List LinkedTask) (x : Ready) (k : String)
    → is_enqueued k (ready_items a all items x).enqueued ≡ true
    → (is_enqueued k x.enqueued || any (was_ready all k) items) ≡ true
unfolding ready_items
ready_items-enqueued a all [] x k there = rw there
ready_items-enqueued a all (i ∷ items) x k there =
    or_assoc (is_enqueued k x.enqueued) (was_ready all k i) (any (was_ready all k) items) (
      unless_failed-enqueued k (ready_item a all i x).failure (ready_item a all i x)
        (ready_items a all items (ready_item a all i x)) _ _
        (λ e. ready_item-enqueued a all i x k e)
        (λ e. ready_items-enqueued a all items (ready_item a all i x) k e) there)

-- What the loop puts on a queue passed its test.
pub queue_ready_objective_tasks-was_ready :
    (a : Around) (r : Rows) (k : String)
    → is_enqueued k (queue_ready_objective_tasks a [] r).enqueued ≡ true
    → any (was_ready (list_initiative_tasks r) k) (list_initiative_tasks r) ≡ true
unfolding queue_ready_objective_tasks
queue_ready_objective_tasks-was_ready a r k there =
    ready_items-enqueued a (list_initiative_tasks r) (list_initiative_tasks r) _ k there
