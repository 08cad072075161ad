-- ===== src/Missions/ReadyQueue/Tests.antt =====
-- The ready queue of two tasks, of which the second waits for the first.
use local_first_se_platform.Base.{String, ◌≡◌, refl, none, List, [], ◌∷◌, same_id}
use local_first_se_platform.Missions.Plan.{MissionTask, high, pending}
use local_first_se_platform.Missions.ReadyQueue.{initialize_from_plan, unlock_ready_tasks, unlocks}

abbrev task : String → List String → MissionTask
task id dependencies = record {
  id = id;
  mission_id = "m";
  title = id;
  description = "";
  required_capability = "QA";
  priority = high;
  status = pending;
  dependencies = dependencies;
  assigned_department_id = none;
  assigned_worker_id = none;
  estimated_complexity = 1;
}

abbrev two_tasks : List MissionTask
two_tasks = task "a" [] ∷ task "b" ("a" ∷ []) ∷ []

first_is_ready : (initialize_from_plan two_tasks).1 ≡ "a" ∷ []
unfolding initialize_from_plan
first_is_ready = refl

second_follows :
    (unlock_ready_tasks ("a" ∷ []) (initialize_from_plan two_tasks).0 [] []).newly_unlocked
    ≡ "b" ∷ []
unfolding unlock_ready_tasks unlocks initialize_from_plan same_id
second_follows = refl
