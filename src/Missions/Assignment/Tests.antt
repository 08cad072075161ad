-- ===== src/Missions/Assignment/Tests.antt =====
-- A batch of three tasks for two backend workers.
use local_first_se_platform.Base.{◌≤◌, String, ◌⊎◌, none, [], ◌∷◌, count}
use local_first_se_platform.Workers.Worker.{backend, new_worker}
use local_first_se_platform.Workers.Store.{WorkerStore}
use local_first_se_platform.Missions.Plan.{MissionTask, medium, pending}
use local_first_se_platform.Missions.Assignment.{Assignments, assign_batch}
use local_first_se_platform.Missions.Assignment.Batches.{IsCrowded, assign_batch_spreads}

abbrev two_workers : WorkerStore
two_workers =
    ("w1", new_worker 0 "w1" "Ada" "Engineer" backend [] none)
    ∷ ("w2", new_worker 0 "w2" "Bob" "Engineer" backend [] none)
    ∷ []

abbrev task : String → MissionTask
task id = record {
  id = id;
  mission_id = "m";
  title = id;
  description = "";
  required_capability = "Backend";
  priority = medium;
  status = pending;
  dependencies = [];
  assigned_department_id = none;
  assigned_worker_id = none;
  estimated_complexity = 1;
}

abbrev nothing_assigned : Assignments
nothing_assigned = record {
  tasks = task "a" ∷ task "b" ∷ task "c" ∷ [];
  department_assignments = [];
  worker_assignments = [];
  used_in_batch = [];
}

assign_batch_spreads_example :
    let used =
      (assign_batch
        (λ s. s)
        ("a" ∷ "b" ∷ "c" ∷ [])
        two_workers
        (record nothing_assigned { used_in_batch = [] })).used_in_batch in
    (count "w1" used ≤ 1)
    ⊎ ((id : String) × IsCrowded "w1" two_workers
          ("a" ∷ "b" ∷ "c" ∷ [])
          nothing_assigned.tasks
          used
          id)
assign_batch_spreads_example =
    assign_batch_spreads "w1" (λ s. s) ("a" ∷ "b" ∷ "c" ∷ []) two_workers nothing_assigned
