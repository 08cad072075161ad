-- ===== src/Lib.antt =====
-- The core of the platform: how a project and its missions are planned, assigned and executed, how
-- a worker's task and a task of the single-user core become files and commits, how the processes and
-- plugins behind the workers are kept, and the gates around their work (verification, merging, budgets,
-- ownership). The paths below start at src/v2 of the repository, those of Core at src/core.
--
-- How the parts interact. `ProjectLifecycleOrchestrator` runs a goal, and follow-ups of it, through a
-- strategy. `MissionEngine` makes a mission; a planning strategy turns its goal into a plan of tasks
-- with dependencies and batches; `TaskAssignmentEngine` gives each task of a batch a worker of a
-- department; `MissionExecutionOrchestrator` runs the plan: a `ReadyTaskQueue` hands out tasks whose
-- dependencies are completed, each task is tried in a worktree of its own until the verification
-- pipeline passes it, and a rejected review can send it back. A try is a run of
-- `WorkerExecutionEngine`: it asks the `ReasoningCoordinator`, which selects a plugin of the
-- `RuntimePluginRegistry` for the worker and lets a worker do one thing at a time, consults other
-- workers, and has the files of the answer written by `WorkspaceExecutionService`. The workers are
-- records of the `WorkerStore`, whose processes `LocalProcessSupervisor` starts, signals and restarts,
-- and which `WorkerLifecyclePolicy` puts into quarantine when they crash too often.
-- `TaskExecutionService` of src/core is a line of execution of its own: sub-task by sub-task it asks a
-- provider, writes the patches, verifies them by commands, and commits or rolls back with Git.
--
-- Which file models which part:
--   Base               lists, maps, texts and tests as JavaScript has them; ids are strings.
--   Missions.Graph     application/missions/task_graph.ts and domain/missions/mission_models.ts.
--                      addTask, addDependency, detectCycle, getExecutionBatches, getReadyTasks have the
--                      same names here. Both loops run on fuel, the number of ids with a counter: an id
--                      enters the queue at most once, so this is enough.
--   Missions.Plan      contracts/imission_decomposition.ts. The ids of a plan's tasks differ, so a task
--                      object is named by its id.
--   Missions.ReadyQueue  application/missions/ready_task_queue.ts.
--   Missions.Execution   executeMissionPlan of application/missions/mission_execution_orchestrator.ts,
--                      and the status change of application/missions/task_scheduler.ts. The parts of a
--                      task's callback between two awaits are the steps of a relation; any task may go
--                      next, so the order in which tasks finish is left open. Safety and Completion are
--                      about all reachable states, Progress about those at which the loop comes to rest.
--   Missions.Attempts  the `while` loop of a task's callback, and retryTaskAfterReview, of the same file.
--                      How an attempt ends is an oracle. The fuel is maxTaskRetries + 1; with more fuel
--                      the loop does the same, since its own test fails before.
--   Missions.Engine    application/missions/mission_engine.ts.
--   Missions.Planner   application/missions/mission_planner.ts.
--   Missions.Planning  application/missions/default_mission_planning_strategy.ts and
--                      application/planning/team_size_estimator.ts.
--   Missions.Assignment  application/missions/task_assignment_engine.ts and the selection of a worker in
--                      application/organization/department_orchestrator.ts.
--   Project            project_lifecycle_orchestrator.ts and project_lifecycle_strategy.ts of
--                      application/project. `restart` is a new process that reads the history file.
--   ProjectHistory     the data of contracts/iproject_lifecycle_orchestrator.ts, and the tree of JSON
--                      that the history file holds of it; the text of the tree is left out.
--   Reasoning          reasoning_coordinator.ts and worker_aware_runtime_selection_strategy.ts of
--                      application/reasoning. What runs between two awaits is one event, and the events
--                      of different requests come in any order.
--   Workers.Worker     domain/employees/worker.ts; Workers.Store is application/worker/worker_store.ts,
--                      Workers.LifecyclePolicy application/worker/worker_lifecycle_policy.ts, and
--                      Workers.Supervisor application/runtime/local_process_supervisor.ts.
--   Workers.TaskExecution  executeTask of application/worker/worker_execution_engine.ts.
--   Workers.Workspace  application/worker/workspace_execution_service.ts, and sanitizePath of
--                      application/worker/execution_response_parser.ts.
--   Policy             token_budget_manager.ts, execution_policy_engine.ts and prompt_cache.ts of
--                      application/policy.
--   Verification       merge_queue.ts and verification_pipeline.ts of application/verification.
--   Collaboration      task_ownership_manager.ts, conflict_detector.ts and review_workflow.ts of
--                      application/collaboration.
--   Plugins.Capabilities application/plugins/capability_registry.ts; Plugins.Loader is
--                      runtime_plugin_loader.ts there, and Plugins.Registry runtime_plugin_registry.ts
--                      with the operations of runtime_plugin_system_manager.ts.
--   Resilience.Guardian  infrastructure/resilience/process_guardian.ts.
--   Core.Commands      application/services/verification_runner.ts of src/core; Core.Repository is
--                      git_manager.ts there, Core.Patches patch_generator.ts and workspace_updater.ts,
--                      and Core.Round and Core.TaskRun executeTask of task_execution_service.ts,
--                      one round of the retry loop and the loops. The fuel of a sub-task's retry loop
--                      is maxRetryCount + 1 rounds, and the loop stops by itself before it is used up.
--
-- Times, process ids and mission ids come from the clock and the operating system, so they are
-- arguments. What a provider, a plugin, a command and the file system answer is an argument as well;
-- only the Git commands that change files have an effect, the documented one, which is written out over
-- a working tree, an index and a last commit. Numbers are whole, and a counter that can fall below zero
-- is an integer. A quotient or a percentage is read over the rationals and rounded as `Math.round`
-- does. An event for listeners is its type and its aggregate's id, and only where the order of events
-- matters.
--
-- Not modelled: payloads and texts of events, prompts, warnings and logs, which nothing in these parts
-- reads; the regular expressions that find file blocks and questions in a text, and the validator of
-- responses, whose results are arguments; the steps of the verification pipeline and the dispatcher,
-- whose outcomes are arguments; normalizeDepartment, which tests regular expressions; cancelExecution
-- and the exceptions of executeMissionPlan; the index and the planner of src/core. The other services
-- (infrastructure, kernel, context compiler, telemetry, terminal and user interface) are left out: they
-- are mostly input and output.
pub mod Base
pub mod Core
pub mod Missions
pub mod Workers
pub mod Policy
pub mod Verification
pub mod Collaboration
pub mod Project
pub mod ProjectHistory
pub mod Reasoning
pub mod Resilience
pub mod Plugins
