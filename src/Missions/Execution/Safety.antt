-- ===== src/Missions/Execution/Safety.antt =====
-- What holds of a mission in every state that its execution can reach, whatever the order in which
-- its tasks go on.
use local_first_se_platform.Base.{
  ℕ, ◌+◌, ◌≤◌, ◌<◌, String, ◌≡◌, true, none, some, List, [], ◌∷◌, arith, eq_self, length, one_if,
  count,
}
use local_first_se_platform.Missions.Plan.{MissionTask, ids, find_task}
use local_first_se_platform.Missions.ReadyQueue.{all_completed}
use local_first_se_platform.Missions.ReadyQueue.Unlocking.{IsDistinct, Knows}
use local_first_se_platform.Missions.ReadyQueue.Starting.{
  initialize_from_plan-ids, initialize_from_plan-Knows, initialize_from_plan-Consistent,
}
use local_first_se_platform.Missions.Execution.{
  Execution, without, start, dispatch, settle_success, settle_failure, record_success,
  record_failure, unlock, Step, launches, dispatches, succeeds, fails, records_success,
  records_failure, unlocks_next, Reach, here, next,
}
use local_first_se_platform.Missions.Execution.Inv.{begun, Inv}
use local_first_se_platform.Missions.Execution.Launch.{launch-Inv, launch-running_le}
use local_first_se_platform.Missions.Execution.Steps.{
  dispatch-Inv, settle_success-Inv, settle_failure-Inv, record_success-Inv, record_failure-Inv,
  unlock-Inv,
}

-- The dependencies that the plan gives to an id.
unfoldable pub dependencies_of : List MissionTask → String → List String
unfolding find_task
dependencies_of ts v = elim (find_task v ts) [ none ↦ [] | some t ↦ t.dependencies ]

Knows-cons :
    (t : MissionTask) (ts xs : List MissionTask)
    → count t.id (ids xs) ≡ 0
    → Knows (dependencies_of ts) xs
    → Knows (dependencies_of (t ∷ ts)) xs
unfolding dependencies_of count one_if
Knows-cons t ts [] fresh h = tt
Knows-cons t ts (x ∷ xs) fresh h = (ground (arith, h.0), Knows-cons t ts xs (omega arith) h.1)

dependencies_of-Knows :
    (ts : List MissionTask) → IsDistinct (ids ts) → Knows (dependencies_of ts) ts
unfolding dependencies_of count one_if
dependencies_of-Knows [] distinct = tt
dependencies_of-Knows (t ∷ ts) distinct = (
  ground (arith, eq_self t.id),
  Knows-cons t ts ts (ground (arith, distinct t.id))
      (dependencies_of-Knows ts (λ v. omega (arith, distinct v))),
)

start-Inv :
    (plan_tasks : List MissionTask)
    → IsDistinct (ids plan_tasks)
    → Inv (dependencies_of plan_tasks) (ids plan_tasks) (start plan_tasks)
unfolding start count
start-Inv plan_tasks distinct =
    let knows = dependencies_of-Knows plan_tasks distinct in
    record {
      knows = initialize_from_plan-Knows _ plan_tasks knows;
      same_ids = initialize_from_plan-ids plan_tasks;
      conserved = λ v. omega arith;
      consistent = initialize_from_plan-Consistent _ plan_tasks knows distinct;
      deps_done = λ v h. absurd (omega arith);
    }

Step-Inv :
    (deps : String → List String) (plan_ids : List String) (max_parallel : ℕ) {s u : Execution}
    → IsDistinct plan_ids
    → Inv deps plan_ids s
    → Step max_parallel s u
    → Inv deps plan_ids u
Step-Inv deps plan_ids m {s} distinct inv (launches idle) =
    launch-Inv deps plan_ids distinct m s inv
Step-Inv deps plan_ids m {s} distinct inv (dispatches t h) =
    dispatch-Inv deps plan_ids distinct t s inv
Step-Inv deps plan_ids m {s} distinct inv (succeeds t h) =
    settle_success-Inv deps plan_ids distinct t s h inv
Step-Inv deps plan_ids m {s} distinct inv (fails t h) =
    settle_failure-Inv deps plan_ids distinct t s h inv
Step-Inv deps plan_ids m {s} distinct inv (records_success t h) =
    record_success-Inv deps plan_ids distinct t s h inv
Step-Inv deps plan_ids m {s} distinct inv (records_failure t h) =
    record_failure-Inv deps plan_ids distinct t s h inv
Step-Inv deps plan_ids m {s} distinct inv (unlocks_next t h) =
    unlock-Inv deps plan_ids distinct t s inv

pub Reach-Inv :
    (max_parallel : ℕ) (plan_tasks : List MissionTask) {s : Execution}
    → IsDistinct (ids plan_tasks)
    → Reach max_parallel plan_tasks s
    → Inv (dependencies_of plan_tasks) (ids plan_tasks) s
Reach-Inv m plan_tasks distinct here = start-Inv plan_tasks distinct
Reach-Inv m plan_tasks distinct (next r st) =
    Step-Inv (dependencies_of plan_tasks) (ids plan_tasks) m distinct
      (Reach-Inv m plan_tasks distinct r) st

-- In a plan with distinct ids, a task is begun only after all of its dependencies are completed:
-- at any time, the dependencies of each task that is running, settled, completed or failed are
-- among the completed ids.
pub Reach-deps_completed :
    (max_parallel : ℕ) (plan_tasks : List MissionTask) {s : Execution} (v : String)
    → IsDistinct (ids plan_tasks)
    → Reach max_parallel plan_tasks s
    → 0 < begun v s
    → all_completed s.completed_ids (dependencies_of plan_tasks v) ≡ true
Reach-deps_completed m plan_tasks v distinct r h = (Reach-Inv m plan_tasks distinct r).deps_done v h

-- In a plan with distinct ids, no task is lost and none is worked on twice: each id of the plan
-- stands, as often as in the plan, in the pending ids or in the lists of begun tasks.
pub Reach-conserves :
    (max_parallel : ℕ) (plan_tasks : List MissionTask) {s : Execution} (v : String)
    → IsDistinct (ids plan_tasks)
    → Reach max_parallel plan_tasks s
    → count v s.pending_ids + begun v s ≡ count v (ids plan_tasks)
Reach-conserves m plan_tasks v distinct r = (Reach-Inv m plan_tasks distinct r).conserved v

length-without-le : (t : String) (xs : List String) → length (without t xs) ≤ length xs
unfolding without
length-without-le t [] = omega arith
length-without-le t (x ∷ xs) = ground (arith, length-without-le t xs)

-- At any time at most `maxParallelWorkers` tasks are running.
pub Reach-running_le :
    (max_parallel : ℕ) (plan_tasks : List MissionTask) {s : Execution}
    → Reach max_parallel plan_tasks s
    → length s.running_ids ≤ max_parallel
unfolding start dispatch settle_success settle_failure record_success record_failure unlock
Reach-running_le m plan_tasks here = omega arith
Reach-running_le m plan_tasks (next r (launches idle)) =
    launch-running_le m _ (Reach-running_le m plan_tasks r)
Reach-running_le m plan_tasks (next {s} r (dispatches t h)) =
    omega (arith, Reach-running_le m plan_tasks r, length-without-le t s.running_ids)
Reach-running_le m plan_tasks (next {s} r (succeeds t h)) =
    omega (arith, Reach-running_le m plan_tasks r, length-without-le t s.running_ids)
Reach-running_le m plan_tasks (next {s} r (fails t h)) =
    omega (arith, Reach-running_le m plan_tasks r, length-without-le t s.running_ids)
Reach-running_le m plan_tasks (next {s} r (records_success t h)) =
    omega (arith, Reach-running_le m plan_tasks r, length-without-le t s.running_ids)
Reach-running_le m plan_tasks (next {s} r (records_failure t h)) =
    omega (arith, Reach-running_le m plan_tasks r, length-without-le t s.running_ids)
Reach-running_le m plan_tasks (next {s} r (unlocks_next t h)) =
    omega (arith, Reach-running_le m plan_tasks r, length-without-le t s.running_ids)
