-- ===== src/Missions/Engine/Tests.antt =====
-- Runs of the mission engine: a mission with one task.
use local_first_se_platform.Base.{
  true, any, ◌≡◌, refl, none, some, List, [], ◌∷◌, if◌then◌else◌, same_id, every, lookup, insert,
}
use local_first_se_platform.Missions.Plan.{
  MissionExecutionPlan, MissionTask, medium, assigned, completed, set_status, find_task,
}
use local_first_se_platform.Missions.Engine.{
  Mission, started, finished, Engine, is_completed, decompose_and_plan_mission, create_mission,
  start_mission, change_mission, change_found, start_plan, start_tasks, start_task, mark_planned,
  mark_task, mark_found, complete_task, complete_planned, complete_mission,
}
use local_first_se_platform.Missions.Engine.Changes.{complete_task_completes_mission}
use local_first_se_platform.Missions.Engine.Stamps.{
  Operation, plans, starts, completes_task, perform, perform_all, no_missions, completes_at,
  completed_missions_are_stamped,
}

abbrev only_task : MissionTask
only_task = record {
  id = "t";
  mission_id = "m";
  title = "t";
  description = "";
  required_capability = "Backend";
  priority = medium;
  status = assigned;
  dependencies = [];
  assigned_department_id = none;
  assigned_worker_id = none;
  estimated_complexity = 1;
}

abbrev one_task_plan : MissionExecutionPlan
one_task_plan = record {
  plan_id = "p";
  mission_id = "m";
  goal = "g";
  tasks = only_task ∷ [];
  dependencies = [];
  execution_batches = ("t" ∷ []) ∷ [];
  department_assignments = [];
  worker_assignments = [];
  total_estimated_complexity = 1;
  workspace_path = none;
  project_id = none;
}

abbrev running_mission : Mission
running_mission = record {
  id = "m";
  title = "M";
  goal = "g";
  status = started;
  created_at = 1;
  updated_at = 2;
  completed_at = none;
}

abbrev engine : Engine
engine = record {
  missions = ("m", running_mission) ∷ [];
  execution_plans = ("m", one_task_plan) ∷ [];
  events = [];
}

mission_known : lookup "m" engine.missions ≡ some running_mission
unfolding lookup same_id
mission_known = refl

plan_known : lookup "m" engine.execution_plans ≡ some one_task_plan
unfolding lookup same_id
plan_known = refl

complete_task_completes_mission_example :
    lookup "m" (complete_task "t" "m" 5 engine).missions
    ≡ some (
        if every (λ u. is_completed u.status) (set_status "t" completed one_task_plan.tasks)
        then record running_mission { status = finished; completed_at = some 5; updated_at = 5 }
        else running_mission)
complete_task_completes_mission_example =
    complete_task_completes_mission "t" "m" 5 engine running_mission one_task_plan mission_known
      plan_known

abbrev whole_life : List Operation
whole_life = plans "m" "M" "g" 1 one_task_plan ∷ starts "m" 2 ∷ completes_task "t" "m" 3 ∷ []

abbrev finished_mission : Mission
finished_mission = record {
  id = "m";
  title = "M";
  goal = "g";
  status = finished;
  created_at = 1;
  updated_at = 3;
  completed_at = some 3;
}

whole_life_finishes :
    lookup "m" (perform_all whole_life no_missions).missions ≡ some finished_mission
unfolding perform_all perform decompose_and_plan_mission create_mission start_mission change_mission
    change_found start_plan start_tasks start_task mark_planned mark_task mark_found complete_task
    complete_planned complete_mission lookup insert same_id set_status find_task
whole_life_finishes = refl

completed_missions_are_stamped_example :
    (finished_mission.completed_at ≡ some 3)
    × (any (completes_at "m" finished_mission.updated_at) whole_life ≡ true)
completed_missions_are_stamped_example =
    completed_missions_are_stamped whole_life "m" finished_mission whole_life_finishes refl
