-- ===== src/Examples/Logs.antt =====
-- The audit log, the stamps, the leases and the worker at concrete rows.
use ia_lab.Prelude.{
  ℕ, ◌≡◌, refl, Bool, true, false, none, some, [], ◌∷◌, arith, inl, str_eq, String, trim_space,
}
use mathlib.Core.Option
use ia_lab.Prelude.Json
use ia_lab.Prelude.Json.{Json, Fields, end, field}
use ia_lab.Task.State.{
  TaskState, created, queued, in_progress, completed, failed, coder, local, is_valid_transition,
  is_terminal_state,
}
use ia_lab.Task.Model.{Task, Transition, Db, Result, ok, err, get_task}
use ia_lab.Task.Store.{finalize_task}
use ia_lab.Task.Store.Leases.{LocalBridge, Postgres}
use ia_lab.Task.Store.Claims.{LocalBridgeTaskClaimResponse, claim_next_local_bridge_task}
use ia_lab.Task.Laws.Audit.{logged, IsAudited, Agrees}
use ia_lab.Task.Laws.Audit.Steps.{run-IsAudited, Operation, run}
use ia_lab.Task.Laws.Stamps.{IsSound, run-IsSound}
use ia_lab.Task.Laws.Claims.{claim_spares_held}
use ia_lab.Task.Laws.Leases.{IsHeld}
use ia_lab.Worker.{reconcile_root_task, RuntimeWorker, try_claim_task}
use ia_lab.Worker.Reconcile.{reconcile_root_task_state}
use ia_lab.Worker.Laws.{try_claim_task_takes}
use ia_lab.Examples.Tasks.{task_of}

-- A running task whose log is up to date.
abbrev running_task : Task
running_task = task_of "t1" in_progress

abbrev record_of : TaskState → TaskState → Transition
record_of from target = record {
  task_id = "t1";
  from_state = from;
  to_state = target;
  actor = "worker:w1";
  reason = "step";
  timestamp = 2;
}

abbrev running_db : Db
running_db = record {
  tasks = running_task ∷ [];
  approvals = [];
  transitions =
      record_of TaskState.assigned in_progress
      ∷ record_of queued TaskState.assigned
      ∷ record_of created queued
      ∷ [];
}

abbrev agrees :
    (b : Bool) (k : String)
    → str_eq "t1" k ≡ b
    → Agrees (get_task k running_db.tasks) (logged k running_db.transitions)
unfolding logged
agrees true k e = rw e refl
agrees false k e = rw e tt

running-IsAudited : IsAudited running_db
unfolding logged
running-IsAudited = record {
  current = λ k. agrees (str_eq "t1" k) k refl;
  chained = (refl, (refl, (refl, tt)));
}

running-IsSound : IsSound running_db
unfolding is_terminal_state is_valid_transition
running-IsSound = record {
  stamped = (
    record { queued_stamp = λ e. refl; started_stamp = λ e. refl; completed_stamp = λ e. cc },
    tt,
  );
  legal = (inl refl, (inl refl, (inl refl, tt)));
}

abbrev finishing : Operation
finishing = Operation.finalize "t1" completed "worker:w1" "done" none none

abbrev after : Result Db → Db
after (ok db) = db
after (err _) = running_db

run-IsAudited_example : IsAudited (after (run finishing 5 running_db))
unfolding run finalize_task is_valid_transition
run-IsAudited_example = run-IsAudited finishing 5 running_db _ tt running-IsAudited refl

run-IsSound_example : IsSound (after (run finishing 5 running_db))
unfolding run finalize_task is_valid_transition
run-IsSound_example = run-IsSound finishing 5 running_db _ running-IsSound refl

abbrev worker : RuntimeWorker
worker = record { worker_id = "w1"; current_task = none }

-- A running root with a completed and a failed step below it.
abbrev step_of : String → TaskState → Task
step_of k s = record (task_of k s) { root_task_id = some "t1"; parent_task_id = some "t1" }

abbrev tree_db : Db
tree_db = record {
  tasks =
      record running_task { root_task_id = some "t1" }
      ∷ step_of "c1" completed
      ∷ step_of "c2" failed
      ∷ [];
  approvals = [];
  transitions = [];
}

reconcile_root_task_state_example :
    Option.map (λ u. u.state) (get_task "t1" (reconcile_root_task worker "c2" 7 tree_db).tasks)
    ≡ some failed
unfolding trim_space
reconcile_root_task_state_example =
    reconcile_root_task_state worker "c2" 7 tree_db (step_of "c2" failed)
      (record running_task { root_task_id = some "t1" }) (step_of "c1" completed)
      (step_of "c2" failed ∷ []) refl refl refl refl refl refl

abbrev queued_db : Db
queued_db = record { tasks = task_of "t3" queued ∷ []; approvals = []; transitions = [] }

try_claim_task_takes_example :
    let (w', db') = try_claim_task worker coder (some "t3") 4 queued_db in
    (w'.current_task ≡ some "t3")
    × (Option.map (λ u. u.state) (get_task "t3" db'.tasks) ≡ some in_progress)
try_claim_task_takes_example =
    try_claim_task_takes worker coder "t3" 4 queued_db (task_of "t3" queued) refl refl refl

-- A database that reads a text as itself and a time as its number of seconds.
abbrev pg_text : Json → String
pg_text (Json.str s) = s
pg_text _ = ""

abbrev pg_time : Json → ℕ
pg_time (Json.stamp t) = t
pg_time _ = 0

abbrev postgres : Postgres
postgres = record {
  as_text = pg_text;
  as_timestamp = pg_time;
  as_text-str = λ s. refl;
  as_timestamp-stamp = λ t. refl;
}

-- A running local task under a lease of the bridge b1 up to the time 100.
abbrev leased_task : Task
leased_task = record (task_of "t1" in_progress) {
  execution_target = local;
  metadata =
      field "local_bridge_lease"
        (Json.obj
          (field "bridge_id" (Json.str "b1") (field "lease_expires_at" (Json.stamp 100) end)))
        end;
}

abbrev leased_db : Db
leased_db = record {
  tasks = leased_task ∷ record (task_of "t3" queued) { execution_target = local } ∷ [];
  approvals = [];
  transitions = [];
}

abbrev other_bridge : LocalBridge
other_bridge = record { id = "b2"; workspace_root = "/work" }

leased-IsHeld : IsHeld postgres other_bridge 50 leased_task
unfolding Json.get
leased-IsHeld = record { running = refl; other = refl; unexpired = ground arith }

claim_spares_held_example :
    let r = claim_next_local_bridge_task postgres (some other_bridge) 45 50 50 50 leased_db in
    (get_task "t1" r.0.tasks ≡ some leased_task)
    × ((c : LocalBridgeTaskClaimResponse) → r.1 ≡ some c → str_eq c.task_id "t1" ≡ false)
unfolding trim_space
claim_spares_held_example =
    claim_spares_held postgres other_bridge 45 50 50 50 leased_db "t1" leased_task
      ((refl, refl), ((refl, refl), tt)) refl leased-IsHeld
