-- ===== src/Missions/Plan.antt =====
-- src/v2/contracts/imission_decomposition.ts. A task object is named by its id, so what the
-- program holds as a reference to a task of the plan is an id here.
use local_first_se_platform.Base.{
  ℕ, String, Option, none, some, List, [], ◌∷◌, if◌then◌else◌, ◌==◌, Dict,
}

pub data TaskPriority : Type 0 where
  low medium high critical : TaskPriority

pub data TaskStatus : Type 0 where
  pending ready assigned running completed failed blocked : TaskStatus

pub data DependencyType : Type 0 where
  hard soft : DependencyType

pub record TaskDependency : Type 0 where
  pub task_id : String
  pub depends_on_task_id : String
  pub dependency_type : DependencyType

pub record MissionTask : Type 0 where
  pub id : String
  pub mission_id : String
  pub title : String
  pub description : String
  pub required_capability : String
  pub priority : TaskPriority
  pub status : TaskStatus
  pub dependencies : List String
  pub assigned_department_id : Option String
  pub assigned_worker_id : Option String
  pub estimated_complexity : ℕ

pub record MissionExecutionPlan : Type 0 where
  pub plan_id : String
  pub mission_id : String
  pub goal : String
  pub tasks : List MissionTask
  pub dependencies : List TaskDependency
  pub execution_batches : List (List String)
  pub department_assignments : Dict (List String)
  pub worker_assignments : Dict (List String)
  pub total_estimated_complexity : ℕ
  pub workspace_path : Option String
  pub project_id : Option String

abbrev pub ids : List MissionTask → List String
ids [] = []
ids (t ∷ ts) = t.id ∷ ids ts

abbrev pub with_status : TaskStatus → MissionTask → MissionTask
with_status s t = record t { status = s }

-- `task.status = s` on the task object with this id.
unfoldable pub set_status : String → TaskStatus → List MissionTask → List MissionTask
set_status id s [] = []
set_status id s (t ∷ ts) =
    if t.id == id then with_status s t ∷ set_status id s ts else t ∷ set_status id s ts

-- `plan.tasks.find((t) => t.id === id)`
unfoldable pub find_task : String → List MissionTask → Option MissionTask
find_task id [] = none
find_task id (t ∷ ts) = if t.id == id then some t else find_task id ts
