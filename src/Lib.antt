-- ===== src/Lib.antt =====
-- IA Lab: an orchestrator that keeps tasks for language-model agents in PostgreSQL, workers and local
-- bridges that take and run them, and a personal secretary. This library models the parts of its Go
-- code that decide: states, transitions, claims, approvals, admission and timing.
--
-- Parts, and where they are modelled:
--   Task/State     internal/orchestratorgo/domain/types.go: TaskState, IsTerminalState,
--                  GetValidTransitions, IsValidTransition, ValidTransitionStrings.
--   Task/Model     the rows of tasks, approvals and state_transitions. A table is a list, an UPDATE
--                  by identifier is `update_task`, by a condition `update_where`.
--   Task/Store     internal/orchestratorgo/store/postgres.go and store/initiatives.go: each Go method
--                  is the function of that name in snake_case (transitionTaskStateTx, UpdateTaskState,
--                  finalizeTask, CompleteTask, FailTask, QueueTaskForLaunch, ...); its children are
--                  Create (CreateTask, UpdateTaskLaunchMode), Approvals (RequestApproval,
--                  ResolveApproval), Leases (Touch- and FinalizeLocalBridgeTaskLease), Claims
--                  (ClaimNextLocalBridgeTaskWithTTL) and Recovery (RequeueRecoverableRemoteTasks).
--   Worker         internal/orchestratorgo/worker/worker.go: tryClaimTask, recordRecoveryCheckpoint,
--                  reconcileRootTask, over the store; its children are Planner (parsePlannerSubtasks,
--                  handlePlannerSuccess) and Run (executeTask, releaseTask, the polls of run).
--   Initiative     Status is deriveInitiativeExecutionStatus of store/initiatives.go, StatusHttp its copy
--                  in httpapi/initiatives.go; Model holds the rows (domain/initiative.go and
--                  store/initiatives.go), Contracts the checks of payloads and the policies
--                  (initiative/contracts.go), Phases and Launch the handlers of
--                  httpapi/initiatives.go: advance, approve and reject, tasks/generate, tasks/launch
--                  and tasks/{id}/mode; Objectives holds cancelSupersededObjectiveDependents and
--                  Ready queueReadyObjectiveTasks of httpapi/objectives.go, Autonomous the run of
--                  initiative/autonomous.go. A handler takes the rows of one initiative and gives them back with its response.
--   Auth           internal/orchestratorgo/httpapi/middleware.go: the guard of all handlers and its
--                  bruteForceTracker; Auth/Blocking follows it over many requests.
--   Runner         internal/orchestratorgo/runner/runner.go: executeToolRequest, safeResolve and
--                  ensureRunnerToolCapabilityAllowed, over a map of files.
--   Broker         internal/orchestratorgo/capabilitybroker/broker.go: which capability an agent gets.
--   Gateway        internal/codexlocalgateway/store.go: the store of responses.
--   Secretary      internal/secretary/timer.go (Timers), interaction.go (Interaction), progress.go
--                  (Progress), learning_store.go and learning_feedback.go (Learning).
--   Prelude        tests, lists, texts, JSON objects and paths, as the code uses them.
--   Examples       concrete rows at which theorems are applied.
-- The worker, the HTTP handlers and the bridges act on tasks through the store only, so the state of
-- the system is the database `Db`; a worker adds the task it holds, and an initiative its own rows
-- (`Initiative.Model.Rows`). The queues of Redis are the list of what was put on them.
--
-- How the code is read. A transaction is a function from the database to a result; a failed one
-- leaves the database as it was. Transactions follow one another, so a row lock and SKIP LOCKED
-- have nothing to skip. Times are numbers; identifiers, clocks, random numbers, the outcome of
-- writing a file and what Redis or a backend answers are arguments. Others may change the database
-- while a runner works on a task; what a handler or a worker does after that is one step. `->>` and `::timestamptz` of
-- PostgreSQL are the record `Postgres` with what the code relies on. The runner of a task, the hash
-- of a key and the splitting of a network address are functions that the definitions take. Text
-- columns of an enumeration refuse other texts. A directory is compared by its path, as the code
-- does: symbolic links are not followed. Floating-point scores of the broker are whole numbers in
-- the code and natural ones here. Loops run over lists, but for the rounds of
-- cancelSupersededObjectiveDependents, which take fuel: one round more than there are tasks is
-- enough, as each round but the last finds an item. The sort of the broker is insertion sort, since
-- a stable sort is determined by its order.
--
-- Not modelled: transport (HTTP, Telegram, terminal), clients of language models and of other
-- services, runs of research and evaluation, artifacts, listings with cursors, what the generators of
-- an initiative write, the loop over objectives, and the terminal client of the bridge: there the
-- code passes texts on to a model, a process or a screen.
mod Prelude
pub mod Task
pub mod Worker
pub mod Initiative
pub mod Auth
pub mod Runner
pub mod Broker
pub mod Secretary
pub mod Gateway
mod Examples
