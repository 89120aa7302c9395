-- ===== src/Initiative/Objectives.antt =====
-- internal/orchestratorgo/httpapi/objectives.go: the work items of an objective, their metadata, and
-- which of them a repair cycle supersedes (cancelSupersededObjectiveDependents). The loop `for changed`
-- runs on fuel and gives nothing when the fuel is used up.
pub mod Superseded
pub mod Cancelled
pub mod Backed
pub mod Closed
use ia_lab.Prelude.{
  ℕ, zero, suc, ◌+◌, String, Bool, true, false, not, ◌&&◌, ◌||◌, Option, none, some, List, [], ◌∷◌,
  any, str_eq, is_empty, is_some, trim_space, leb, ltb, ◌==◌, if◌then◌else◌,
}
use ia_lab.Prelude.Json
use ia_lab.Prelude.Json.{Json, Items, nil, cons, Fields, end, field}
use ia_lab.Task.State.{TaskState, created, queued, assigned, waiting_approval, completed, state_eq}
use ia_lab.Task.Model.{Task, Db, StoreError, Result, ok, err}
use ia_lab.Task.Store.{cancel_task, patch_task_metadata}
use ia_lab.Initiative.Contracts.{as_string, is_nothing}
use ia_lab.Initiative.Model.{LinkedTask, Rows, list_initiative_tasks}

-- objectiveAsInt
abbrev pub as_int : Option Json → ℕ → ℕ
as_int (some (Json.num n)) fallback = n
as_int _ fallback = fallback

-- objectiveIteration
unfoldable pub iteration_of : Fields → ℕ
iteration_of metadata =
    let iteration = as_int (Json.get "objective_iteration" metadata) 1 in
    if iteration == 0 then 1 else iteration

-- objectiveMaxIterations
unfoldable pub max_iterations_of : Fields → ℕ
max_iterations_of metadata =
    let value = as_int (Json.get "objective_max_iterations" metadata) 3 in
    if value == 0 then 3 else value

abbrev pub work_item_id : LinkedTask → String
work_item_id i = trim_space (as_string (Json.get "work_item_id" i.task.metadata))

abbrev pub texts_of : Items → List String
texts_of nil = []
texts_of (cons v vs) =
    let rest = texts_of vs in
    let text = trim_space (as_string (some v)) in if is_empty text then rest else text ∷ rest

-- anyStringSliceHTTPDefault of metadata["depends_on"]
abbrev pub depends_on : LinkedTask → List String
depends_on i = elim (Json.get "depends_on" i.task.metadata) [
  | some (Json.arr items) ↦ texts_of items
  | _ ↦ []
]

abbrev pub has_text : List String → String → Bool
has_text texts s = any (λ t. str_eq t s) texts

-- The conditions of the loop before the test of the dependencies.
abbrev pub is_candidate : Task → ℕ → LinkedTask → Bool
is_candidate current iteration i =
    not (str_eq i.task.id current.id)
    && iteration_of i.task.metadata == iteration
    && not (is_empty (work_item_id i))

-- An item that depends on one of the superseded.
abbrev pub is_dependent : List String → LinkedTask → Bool
is_dependent superseded i = any (has_text superseded) (depends_on i)

-- Items that a round may still find, and those that it does.
abbrev pub is_open : Task → ℕ → List String → LinkedTask → Bool
is_open current iteration superseded i =
    is_candidate current iteration i && not (has_text superseded (work_item_id i))

abbrev pub is_left : Task → ℕ → List String → LinkedTask → Bool
is_left current iteration superseded i =
    is_open current iteration superseded i && is_dependent superseded i

abbrev pub is_cancelable : TaskState → Bool
is_cancelable created = true
is_cancelable queued = true
is_cancelable assigned = true
is_cancelable waiting_approval = true
is_cancelable _ = false

-- The database, the identifiers of superseded work items, and whether the round found one.
pub record Sweep : Type 0 where
  pub db : Db
  pub superseded : List String
  pub changed : Bool

abbrev pub superseded_patch : ℕ → Fields
superseded_patch iteration =
    field "superseded_by_repair_cycle" (Json.bool true)
      (field "superseded_iteration" (Json.num (iteration + 1)) end)

abbrev pub cancel_superseded : ℕ → String → ℕ → LinkedTask → Db → Result Db
cancel_superseded iteration reason now i db =
    if is_cancelable i.task.state
    then cancel_task i.task.id "objectives:auto" reason now
        (patch_task_metadata i.task.id (superseded_patch iteration) now db)
    else ok db

abbrev pub supersede : LinkedTask → Sweep → Result Db → Result Sweep
supersede i s (err e) = err e
supersede i s (ok db) =
    ok (record { db = db; superseded = work_item_id i ∷ s.superseded; changed = true })

-- The body of the loop over the items.
unfoldable pub sweep_item : Task → ℕ → String → ℕ → LinkedTask → Sweep → Result Sweep
sweep_item current iteration reason now i s =
    if is_left current iteration s.superseded i
    then supersede i s (cancel_superseded iteration reason now i s.db)
    else ok s

abbrev pub sweep_rest : (Sweep → Result Sweep) → Result Sweep → Result Sweep
sweep_rest next (err e) = err e
sweep_rest next (ok s) = next s

unfoldable pub sweep_items : Task → ℕ → String → ℕ → List LinkedTask → Sweep → Result Sweep
sweep_items current iteration reason now [] s = ok s
sweep_items current iteration reason now (i ∷ items) s =
    sweep_rest (sweep_items current iteration reason now items)
      (sweep_item current iteration reason now i s)

-- What follows a round: the next one when something changed.
abbrev pub after_round : (Sweep → Option (Result Sweep)) → Result Sweep → Option (Result Sweep)
after_round next (err e) = some (err e)
after_round next (ok s) = if s.changed then next s else some (ok s)

unfoldable pub sweep_rounds :
    Task → ℕ → String → ℕ → List LinkedTask → ℕ → Sweep → Option (Result Sweep)
sweep_rounds current iteration reason now items zero s = none
sweep_rounds current iteration reason now items (suc fuel) s =
    after_round (sweep_rounds current iteration reason now items fuel)
      (sweep_items current iteration reason now items (record s { changed = false }))

-- cancelSupersededObjectiveDependents; `reason` is the text with the number of the next iteration.
unfoldable pub cancel_superseded_dependents : Task → String → ℕ → ℕ → Rows → Option (Result Sweep)
cancel_superseded_dependents current reason now fuel r =
    let own = trim_space (as_string (Json.get "work_item_id" current.metadata)) in
    if is_empty own
    then some (ok (record { db = r.db; superseded = []; changed = false }))
    else sweep_rounds current (iteration_of current.metadata) reason now (list_initiative_tasks r)
        fuel (record { db = r.db; superseded = own ∷ []; changed = true })
