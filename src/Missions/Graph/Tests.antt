-- ===== src/Missions/Graph/Tests.antt =====
-- Runs of the task graph: a chain of two tasks, and a cycle.
use local_first_se_platform.Base.{
  ◌≤◌, String, ◌≡◌, refl, ◌⊎◌, true, false, none, some, List, [], ◌∷◌, same_id, count, lookup, All,
  insert, has,
}
use local_first_se_platform.Missions.Graph.{
  Task, backlog, p1, ExecutionBatch, empty_graph, add_task, add_dependency, add_dependencies, relax,
  drain, relax_batch, level, copy_degrees, zero_ids, detect_cycle, batches, cyclic_error,
  get_execution_batches,
}
use local_first_se_platform.Missions.Graph.Building.{add_tasks}
use local_first_se_platform.Missions.Graph.Kahn.Fuel.{get_execution_batches_total}
use local_first_se_platform.Missions.Graph.Kahn.Order.{DepsFirst, get_execution_batches-DepsFirst}
use local_first_se_platform.Missions.Graph.Kahn.Complete.{scheduled}

abbrev task : String → List String → Task
task id deps = record {
  id = id;
  mission_id = "m";
  feature_id = none;
  title = id;
  objective = "";
  target_files = [];
  required_capabilities = [];
  priority = p1;
  status = backlog;
  assigned_worker_id = none;
  depends_on_task_ids = deps;
  retry_count = 0;
}

abbrev chain : List Task
chain = task "b" ("a" ∷ []) ∷ task "a" [] ∷ []

abbrev chain_batches : List ExecutionBatch
chain_batches =
    record { batch_number = 1; task_ids = "a" ∷ [] }
    ∷ record { batch_number = 2; task_ids = "b" ∷ [] }
    ∷ []

abbrev cycle : List Task
cycle = task "a" ("b" ∷ []) ∷ task "b" ("a" ∷ []) ∷ []

chain_is_scheduled : get_execution_batches (add_tasks chain empty_graph) ≡ batches chain_batches
unfolding get_execution_batches add_tasks add_task add_dependencies add_dependency detect_cycle
    drain relax level relax_batch copy_degrees zero_ids lookup insert has same_id
chain_is_scheduled = refl

cycle_is_refused : get_execution_batches (add_tasks cycle empty_graph) ≡ cyclic_error
unfolding get_execution_batches add_tasks add_task add_dependencies add_dependency detect_cycle
    drain relax level relax_batch copy_degrees zero_ids lookup insert has same_id
cycle_is_refused = refl

-- A dependency that no task has is reported as a cycle.
dangling_is_refused :
    get_execution_batches (add_tasks (task "a" ("x" ∷ []) ∷ []) empty_graph) ≡ cyclic_error
unfolding get_execution_batches add_tasks add_task add_dependencies add_dependency detect_cycle
    drain relax level relax_batch copy_degrees zero_ids lookup insert has same_id
dangling_is_refused = refl

get_execution_batches-DepsFirst_example :
    DepsFirst chain [] chain_batches
    × ((v : String) → count v (scheduled chain_batches) ≤ 1)
    × All (λ t. count t.id (scheduled chain_batches) ≡ 1) chain
get_execution_batches-DepsFirst_example =
    get_execution_batches-DepsFirst chain chain_batches chain_is_scheduled

get_execution_batches_total_example :
    ((bs : List ExecutionBatch) × (get_execution_batches (add_tasks cycle empty_graph) ≡ batches bs)
      × (detect_cycle (add_tasks cycle empty_graph) ≡ some false))
    ⊎ ((get_execution_batches (add_tasks cycle empty_graph) ≡ cyclic_error)
        × (detect_cycle (add_tasks cycle empty_graph) ≡ some true))
get_execution_batches_total_example = get_execution_batches_total (add_tasks cycle empty_graph)
