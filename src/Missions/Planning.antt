-- ===== src/Missions/Planning.antt =====
-- src/v2/application/missions/default_mission_planning_strategy.ts, and team_size_estimator.ts of
-- src/v2/application/planning. The goal's text in lower case and the number of its words are
-- arguments of the estimator.
mod Tests
pub mod Tables
pub mod Batches
pub mod Order
use local_first_se_platform.Base.{
  ℕ, zero, suc, ◌+◌, ◌/◌, ◌%◌, String, Bool, true, false, ◌&&◌, ◌||◌, Option, none, List, [], ◌∷◌,
  ◌++◌, map, ltb, leb, nat_eq, if◌then◌else◌, filter,
}
use Prim.Native.String.{◌++◌ as join, slice}
use text.Mathlib.Text.{find?}
use local_first_se_platform.Workers.Worker.{is_some}
use local_first_se_platform.Missions.Plan.{
  TaskPriority, TaskStatus, pending, ready, DependencyType, hard, soft, TaskDependency, MissionTask,
  MissionExecutionPlan,
}

pub data TeamSizeTier : Type 0 where
  small medium large enterprise : TeamSizeTier

pub record TeamSizeEstimate : Type 0 where
  pub tier : TeamSizeTier
  pub task_count : ℕ
  pub recommended_worker_count : ℕ
  pub matched_keywords : List String

abbrev enterprise_keywords : List String
enterprise_keywords =
    "enterprise" ∷ "large-scale" ∷ "large scale" ∷ "mission-critical" ∷ "multi-region"
    ∷ "compliance-grade" ∷ []

abbrev large_keywords : List String
large_keywords =
    "microservice" ∷ "multi-tenant" ∷ "multi tenant" ∷ "distributed system" ∷ "saas platform"
    ∷ "saas" ∷ []

abbrev small_keywords : List String
small_keywords =
    "small" ∷ "simple" ∷ "single" ∷ "minimal" ∷ "tiny" ∷ "quick" ∷ "basic" ∷ "health check"
    ∷ "health-check" ∷ []

abbrev small_max_words : ℕ
small_max_words = 14

abbrev pub hits : String → List String → List String
hits lower keywords = filter (λ k. is_some (find? lower k)) keywords

abbrev pub estimate_of : TeamSizeTier → ℕ → List String → TeamSizeEstimate
estimate_of tier n keywords = record {
  tier = tier;
  task_count = n;
  recommended_worker_count = n;
  matched_keywords = keywords;
}

abbrev pub is_nonempty : List String → Bool
is_nonempty [] = false
is_nonempty (x ∷ xs) = true

-- `estimate`, on the hits of the three lists of keywords.
unfoldable pub estimate_from : List String → List String → List String → ℕ → TeamSizeEstimate
estimate_from for_enterprise for_large for_small word_count =
    if is_nonempty for_enterprise
    then estimate_of enterprise 15 for_enterprise
    else if is_nonempty for_large
    then estimate_of large 10 for_large
    else if is_nonempty for_small && leb word_count small_max_words
    then estimate_of small 3 for_small
    else estimate_of medium 6 []

unfoldable pub estimate : String → ℕ → TeamSizeEstimate
unfolding estimate_from
estimate lower word_count =
    estimate_from (hits lower enterprise_keywords) (hits lower large_keywords)
      (hits lower small_keywords) word_count

-- `description` is the text before the goal. Task numbers start at 1.
pub record TaskBlueprint : Type 0 where
  pub title : String
  pub description : String
  pub required_capability : String
  pub priority : TaskPriority
  pub estimated_complexity : ℕ
  pub depends_on : List ℕ
  pub soft_depends_on : List ℕ
  pub batch : ℕ

abbrev pub blueprint :
    String → String → String → TaskPriority → ℕ → List ℕ → List ℕ → ℕ → TaskBlueprint
blueprint title description capability priority complexity depends_on soft_depends_on batch =
    record {
      title = title;
      description = description;
      required_capability = capability;
      priority = priority;
      estimated_complexity = complexity;
      depends_on = depends_on;
      soft_depends_on = soft_depends_on;
      batch = batch;
    }

-- A number of at most two digits, in decimal.
unfoldable pub decimal : ℕ → String
decimal n =
    let digit : ℕ → String = λ d. slice "0123456789" d (d + 1) in
    if ltb n 10 then digit n else join (digit (n / 10)) (digit (n % 10))

-- `t-${missionId}-${n}`
unfoldable pub task_id : String → ℕ → String
unfolding decimal
task_id mission_id n = join "t-" (join mission_id (join "-" (decimal n)))

abbrev pub first_status : ℕ → TaskStatus
first_status zero = ready
first_status (suc n) = pending

-- The task of the blueprint with the index `idx`, counted from 0.
unfoldable pub task_of : String → String → ℕ → TaskBlueprint → MissionTask
unfolding task_id
task_of mission_id goal idx bp = record {
  id = task_id mission_id (idx + 1);
  mission_id = mission_id;
  title = bp.title;
  description = join bp.description goal;
  required_capability = bp.required_capability;
  priority = bp.priority;
  status = first_status idx;
  dependencies = map (task_id mission_id) bp.depends_on;
  assigned_department_id = none;
  assigned_worker_id = none;
  estimated_complexity = bp.estimated_complexity;
}

unfoldable pub tasks_from : String → String → ℕ → List TaskBlueprint → List MissionTask
unfolding task_of
tasks_from mission_id goal idx [] = []
tasks_from mission_id goal idx (bp ∷ bps) =
    task_of mission_id goal idx bp ∷ tasks_from mission_id goal (idx + 1) bps

abbrev pub has_number : ℕ → List ℕ → Bool
has_number n [] = false
has_number n (m ∷ ms) = nat_eq m n || has_number n ms

abbrev pub dependency_of : String → ℕ → TaskBlueprint → ℕ → TaskDependency
dependency_of mission_id idx bp dep = record {
  task_id = task_id mission_id (idx + 1);
  depends_on_task_id = task_id mission_id dep;
  dependency_type = if has_number dep bp.soft_depends_on then soft else hard;
}

unfoldable pub dependencies_from : String → ℕ → List TaskBlueprint → List TaskDependency
dependencies_from mission_id idx [] = []
dependencies_from mission_id idx (bp ∷ bps) =
    map (dependency_of mission_id idx bp) bp.depends_on
    ++ dependencies_from mission_id (idx + 1) bps

-- `batchMap`: the ids by batch number, in the order in which the numbers first occur.
unfoldable pub add_to_batch : ℕ → String → List (ℕ × List String) → List (ℕ × List String)
add_to_batch n id [] = (n, id ∷ []) ∷ []
add_to_batch n id ((m, xs) ∷ rest) =
    if nat_eq m n then (m, xs ++ id ∷ []) ∷ rest else (m, xs) ∷ add_to_batch n id rest

unfoldable pub batch_map :
    String → ℕ → List TaskBlueprint → List (ℕ × List String) → List (ℕ × List String)
unfolding add_to_batch
batch_map mission_id idx [] batches = batches
batch_map mission_id idx (bp ∷ bps) batches =
    batch_map mission_id (idx + 1) bps
      (add_to_batch bp.batch (task_id mission_id (idx + 1)) batches)

-- `Array.from(batchMap.keys()).sort((a, b) => a - b)`, with what the map has for each key.
unfoldable pub sorted_in : ℕ × List String → List (ℕ × List String) → List (ℕ × List String)
sorted_in b [] = b ∷ []
sorted_in b (c ∷ cs) = if leb b.0 c.0 then b ∷ c ∷ cs else c ∷ sorted_in b cs

unfoldable pub sort_batches : List (ℕ × List String) → List (ℕ × List String)
unfolding sorted_in
sort_batches [] = []
sort_batches (b ∷ bs) = sorted_in b (sort_batches bs)

abbrev pub batch_lists : List (ℕ × List String) → List (List String)
batch_lists [] = []
batch_lists ((n, xs) ∷ bs) = xs ∷ batch_lists bs

unfoldable pub sum_complexity : List MissionTask → ℕ
sum_complexity [] = 0
sum_complexity (t ∷ ts) = t.estimated_complexity + sum_complexity ts

-- `planMission`, from the blueprints that the estimate selects.
unfoldable pub plan_from :
    String → String → Option String → Option String → List TaskBlueprint → MissionExecutionPlan
unfolding tasks_from dependencies_from batch_map sort_batches sum_complexity
plan_from mission_id goal workspace_path project_id bps =
    let tasks = tasks_from mission_id goal 0 bps in
    record {
      plan_id = join "plan-" mission_id;
      mission_id = mission_id;
      goal = goal;
      tasks = tasks;
      dependencies = dependencies_from mission_id 0 bps;
      execution_batches = batch_lists (sort_batches (batch_map mission_id 0 bps []));
      department_assignments = [];
      worker_assignments = [];
      total_estimated_complexity = sum_complexity tasks;
      workspace_path = workspace_path;
      project_id = project_id;
    }
