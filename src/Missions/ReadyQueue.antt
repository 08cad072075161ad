-- ===== src/Missions/ReadyQueue.antt =====
-- src/v2/application/missions/ready_task_queue.ts. The queue holds references, that is ids.
mod Tests
pub mod Unlocking
pub mod Starting
use local_first_se_platform.Base.{
  String, Bool, true, false, not, ◌&&◌, Option, none, some, List, [], ◌∷◌, ◌++◌, if◌then◌else◌,
  every, contains,
}
use local_first_se_platform.Missions.Plan.{
  TaskStatus, pending, ready, blocked, MissionTask, with_status,
}

abbrev pub is_blocked : TaskStatus → Bool
is_blocked blocked = true
is_blocked pending = true
is_blocked _ = false

abbrev pub is_empty : List String → Bool
is_empty [] = true
is_empty (x ∷ xs) = false

-- `initializeFromPlan`: the plan's tasks with their new status, and the queue.
unfoldable pub initialize_from_plan : List MissionTask → List MissionTask × List String
initialize_from_plan [] = ([], [])
initialize_from_plan (t ∷ ts) =
    let (tasks, queue) = initialize_from_plan ts in
    if is_empty t.dependencies
    then (with_status ready t ∷ tasks, t.id ∷ queue)
    else (with_status blocked t ∷ tasks, queue)

-- `task.dependencies.every((depId) => completedTaskIds.has(depId))`
abbrev pub all_completed : List String → List String → Bool
all_completed completed_ids deps = every (λ d. contains d completed_ids) deps

pub record Unlocked : Type 0 where
  pub tasks : List MissionTask
  pub queue : List String
  pub newly_unlocked : List String

abbrev pub unlocks : List String → MissionTask → Bool
unlocks completed_ids t = is_blocked t.status && all_completed completed_ids t.dependencies

-- The queue, and the list of unlocked tasks, that the loop of `unlockReadyTasks` hands on.
unfoldable pub unlock_ready_tasks :
    List String → List MissionTask → List String → List String → Unlocked
unlock_ready_tasks completed_ids [] queue newly = record {
  tasks = [];
  queue = queue;
  newly_unlocked = newly;
}
unlock_ready_tasks completed_ids (t ∷ ts) queue newly =
    let opens = unlocks completed_ids t in
    let pushes = opens && not (contains t.id queue) in
    let rest =
      unlock_ready_tasks completed_ids ts (if pushes then queue ++ t.id ∷ [] else queue)
        (if pushes then newly ++ t.id ∷ [] else newly) in
    record rest { tasks = (if opens then with_status ready t else t) ∷ rest.tasks }

unfoldable pub pop_next_ready_task : List String → Option String × List String
pop_next_ready_task [] = (none, [])
pop_next_ready_task (x ∷ xs) = (some x, xs)
