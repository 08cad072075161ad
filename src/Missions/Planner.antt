-- ===== src/Missions/Planner.antt =====
-- src/v2/application/missions/mission_planner.ts: the task graph of a new mission.
mod Tests
use local_first_se_platform.Base.{String, none, List, [], ◌∷◌}
use Prim.Native.String.{◌++◌ as join}
use local_first_se_platform.Missions.Graph.{
  Task, Priority, p0, p1, p2, backlog, TaskGraph, empty_graph, add_task,
}

abbrev planned_task :
    String
    → String
    → String
    → String
    → String
    → List String
    → List String
    → Priority
    → List String
    → Task
planned_task mission_id suffix title objective goal files capabilities priority deps = record {
  id = join "task-" (join mission_id suffix);
  mission_id = mission_id;
  feature_id = none;
  title = title;
  objective = join objective goal;
  target_files = files;
  required_capabilities = capabilities;
  priority = priority;
  status = backlog;
  assigned_worker_id = none;
  depends_on_task_ids = deps;
  retry_count = 0;
}

unfoldable pub arch_task : String → String → Task
arch_task mission_id goal =
    planned_task mission_id "-arch" "Architectural Blueprint & Review"
      "Define architectural blueprints for goal: " goal ("architecture.md" ∷ [])
      ("ARCHITECTURE" ∷ "DOCUMENTATION" ∷ []) p0 []

unfoldable pub impl_task : String → String → Task
unfolding arch_task
impl_task mission_id goal =
    planned_task mission_id "-impl" "Core Implementation"
      "Implement features according to blueprint: " goal ("src/main.ts" ∷ [])
      ("CODE_GENERATION" ∷ []) p1 ((arch_task mission_id goal).id ∷ [])

unfoldable pub test_task : String → String → Task
unfolding impl_task
test_task mission_id goal =
    planned_task mission_id "-test" "Automated Test Suite" "Write unit and integration tests for: "
      goal ("tests/main.test.ts" ∷ []) ("TEST_GENERATION" ∷ []) p1
      ((impl_task mission_id goal).id ∷ [])

unfoldable pub review_task : String → String → Task
unfolding test_task
review_task mission_id goal =
    planned_task mission_id "-review" "Code Review & Audit" "Audit security and quality for: " goal
      ("architecture.md" ∷ "src/main.ts" ∷ []) ("CODE_REVIEW" ∷ []) p2
      ((test_task mission_id goal).id ∷ [])

unfoldable pub plan_mission : String → String → TaskGraph
unfolding review_task
plan_mission mission_id goal = add_task (review_task mission_id goal) (
    add_task (test_task mission_id goal)
      (add_task (impl_task mission_id goal) (add_task (arch_task mission_id goal) empty_graph)))
