-- ===== src/Missions/Engine.antt =====
-- src/v2/application/missions/mission_engine.ts: the missions by id, and the plans that
-- `decomposeAndPlanMission` has made. Ids come from the clock, so they are arguments, and so is the
-- plan of a new mission, which the decomposer makes. The task graphs are in Missions.Graph.
mod Tests
pub mod Changes
pub mod Stamps
use local_first_se_platform.Base.{
  ℕ, String, Bool, true, false, not, Option, none, some, List, [], ◌∷◌, ◌++◌, if◌then◌else◌, every,
  Dict, lookup, insert,
}
use local_first_se_platform.Missions.Plan.{
  MissionExecutionPlan, MissionTask, TaskStatus, pending, ready, assigned, running, completed,
  failed, blocked, set_status, find_task,
}

-- `started`, `finished` and `aborted` are the program's RUNNING, COMPLETED and FAILED, which are
-- also names of task statuses.
pub data MissionStatus : Type 0 where
  created started paused cancelled finished aborted archived : MissionStatus

pub record Mission : Type 0 where
  pub id : String
  pub title : String
  pub goal : String
  pub status : MissionStatus
  pub created_at : ℕ
  pub updated_at : ℕ
  pub completed_at : Option ℕ

pub data EventType : Type 0 where
  mission_created mission_started mission_paused mission_failed mission_completed : EventType
  task_started task_completed task_failed : EventType

pub record Engine : Type 0 where
  pub missions : Dict Mission
  pub execution_plans : Dict MissionExecutionPlan
  -- The events with the aggregate's id, in order.
  pub events : List (EventType × String)

abbrev pub emit : EventType → String → Engine → Engine
emit e id s = record s { events = s.events ++ (e, id) ∷ [] }

unfoldable pub create_mission : String → String → String → ℕ → Engine → Engine
create_mission id title goal now s = emit mission_created id (record s {
  missions =
      insert id
        (record {
          id = id;
          title = title;
          goal = goal;
          status = created;
          created_at = now;
          updated_at = now;
          completed_at = none;
        })
        s.missions;
})

unfoldable pub decompose_and_plan_mission :
    String → String → String → ℕ → MissionExecutionPlan → Engine → Engine
unfolding create_mission
decompose_and_plan_mission id title goal now plan s =
    let made = create_mission id title goal now s in
    record made { execution_plans = insert id plan made.execution_plans }

-- `mission.status = status` on a mission of the store, and its new time stamp.
abbrev pub set_mission : MissionStatus → ℕ → Mission → Mission
set_mission status now m = record m { status = status; updated_at = now }

abbrev pub put_mission : String → Mission → Engine → Engine
put_mission id m s = record s { missions = insert id m s.missions }

abbrev pub is_running : MissionStatus → Bool
is_running started = true
is_running _ = false

abbrev pub is_paused : MissionStatus → Bool
is_paused paused = true
is_paused _ = false

abbrev pub is_startable : TaskStatus → Bool
is_startable assigned = true
is_startable ready = true
is_startable _ = false

abbrev pub is_completed : TaskStatus → Bool
is_completed completed = true
is_completed _ = false

-- The new status of the task that `plan.tasks.find(...)` has found, and its event.
unfoldable pub mark_found :
    Option MissionTask → TaskStatus → EventType → String → MissionExecutionPlan → Engine → Engine
mark_found none status event mission_id plan s = s
mark_found (some t) status event mission_id plan s = emit event t.id (record s {
  execution_plans =
      insert mission_id (record plan { tasks = set_status t.id status plan.tasks })
        s.execution_plans;
})

unfoldable pub mark_task :
    TaskStatus → EventType → String → String → MissionExecutionPlan → Engine → Engine
unfolding mark_found
mark_task status event task_id mission_id plan s =
    mark_found (find_task task_id plan.tasks) status event mission_id plan s

-- `const plan = this.executionPlans.get(missionId); if (plan) { ... }`
unfoldable pub mark_planned :
    Option MissionExecutionPlan → TaskStatus → EventType → String → String → Engine → Engine
unfolding mark_task
mark_planned none status event task_id mission_id s = s
mark_planned (some plan) status event task_id mission_id s =
    mark_task status event task_id mission_id plan s

unfoldable pub start_task : String → String → Engine → Engine
unfolding mark_planned
start_task task_id mission_id s =
    mark_planned (lookup mission_id s.execution_plans) running task_started task_id mission_id s

-- The `for` loop of `startMission`, over the plan's tasks.
unfoldable pub start_tasks : List MissionTask → String → Engine → Engine
unfolding start_task
start_tasks [] mission_id s = s
start_tasks (t ∷ ts) mission_id s =
    start_tasks ts mission_id (if is_startable t.status then start_task t.id mission_id s else s)

unfoldable pub start_plan : Option MissionExecutionPlan → String → Engine → Engine
unfolding start_tasks
start_plan none id s = s
start_plan (some plan) id s = start_tasks plan.tasks id s

-- An operation on the mission that is found: what the test `refuses` lets through is changed.
unfoldable pub change_found :
    (MissionStatus → Bool)
    → (Mission → Mission)
    → (Engine → Engine)
    → String
    → Option Mission
    → Engine
    → Engine × Bool
change_found refuses change then_do id none s = (s, false)
change_found refuses change then_do id (some m) s =
    if refuses m.status then (s, false) else (then_do (put_mission id (change m) s), true)

unfoldable pub change_mission :
    (MissionStatus → Bool)
    → (Mission → Mission)
    → (Engine → Engine)
    → String
    → Engine
    → Engine × Bool
unfolding change_found
change_mission refuses change then_do id s =
    change_found refuses change then_do id (lookup id s.missions) s

unfoldable pub start_mission : String → ℕ → Engine → Engine × Bool
unfolding change_mission start_plan
start_mission id now s =
    change_mission is_running (set_mission started now)
      (λ u. start_plan (lookup id u.execution_plans) id (emit mission_started id u)) id s

unfoldable pub pause_mission : String → ℕ → Engine → Engine × Bool
unfolding change_mission
pause_mission id now s =
    change_mission (λ st. not (is_running st)) (set_mission paused now) (emit mission_paused id) id
      s

unfoldable pub resume_mission : String → ℕ → Engine → Engine × Bool
unfolding change_mission
resume_mission id now s =
    change_mission (λ st. not (is_paused st)) (set_mission started now) (emit mission_started id) id
      s

unfoldable pub cancel_mission : String → ℕ → Engine → Engine × Bool
unfolding change_mission
cancel_mission id now s =
    change_mission (λ st. false) (set_mission cancelled now) (emit mission_failed id) id s

unfoldable pub complete_mission : String → ℕ → Engine → Engine × Bool
unfolding change_mission
complete_mission id now s =
    change_mission (λ st. false)
      (λ m. record m { status = finished; completed_at = some now; updated_at = now })
      (emit mission_completed id) id s

unfoldable pub archive_mission : String → ℕ → Engine → Engine × Bool
unfolding change_mission
archive_mission id now s = change_mission (λ st. false) (set_mission archived now) (λ u. u) id s

-- `completeTask`: the task first, then the test on all of the plan's tasks.
unfoldable pub complete_planned :
    Option MissionExecutionPlan → String → String → ℕ → Engine → Engine
unfolding mark_task complete_mission
complete_planned none task_id mission_id now s = s
complete_planned (some plan) task_id mission_id now s =
    let marked = mark_task completed task_completed task_id mission_id plan s in
    if every (λ t. is_completed t.status) (set_status task_id completed plan.tasks)
    then (complete_mission mission_id now marked).0
    else marked

unfoldable pub complete_task : String → String → ℕ → Engine → Engine
unfolding complete_planned
complete_task task_id mission_id now s =
    complete_planned (lookup mission_id s.execution_plans) task_id mission_id now s

unfoldable pub fail_task : String → String → Engine → Engine
unfolding mark_planned
fail_task task_id mission_id s =
    mark_planned (lookup mission_id s.execution_plans) failed task_failed task_id mission_id s
