-- ===== src/Missions/Execution.antt =====
-- `executeMissionPlan` of src/v2/application/missions/mission_execution_orchestrator.ts: the state
-- of one mission's execution, and the steps between the points where its tasks wait. A batch is
-- launched at once; after that its tasks go on in any order, so each part of a task's callback that
-- runs without waiting is a step of its own.
mod Tests
mod Inv
mod Steps
mod Launch
mod Waiting
mod Reasons
pub mod Progress
pub mod Safety
pub mod Completion
use local_first_se_platform.Base.{
  ℕ, zero, suc, ◌-◌, ◌<◌, String, ◌≡◌, Bool, List, [], ◌∷◌, ◌++◌, nat_eq, if◌then◌else◌, ◌==◌,
  length, count,
}
use local_first_se_platform.Missions.Plan.{
  TaskStatus, running, completed, failed, MissionTask, ids, set_status,
}
use local_first_se_platform.Missions.ReadyQueue.{initialize_from_plan, unlock_ready_tasks}

pub record Execution : Type 0 where
  pub tasks : List MissionTask
  pub queue : List String
  pub pending_ids : List String
  pub running_ids : List String
  -- Tasks whose success, or failure, is known and not yet recorded (`persistTask` is awaited).
  pub succeeded_ids : List String
  pub failing_ids : List String
  -- Recorded tasks whose hand-off messages are still being sent: `unlockReadyTasks` comes after.
  pub unlocking_ids : List String
  pub completed_ids : List String
  pub failed_ids : List String

-- `xs.filter((x) => x !== id)`
unfoldable pub without : String → List String → List String
without id [] = []
without id (x ∷ xs) = if x == id then without id xs else x ∷ without id xs

pub start : List MissionTask → Execution
start plan_tasks =
    let (tasks, queue) = initialize_from_plan plan_tasks in
    record {
      tasks = tasks;
      queue = queue;
      pending_ids = ids plan_tasks;
      running_ids = [];
      succeeded_ids = [];
      failing_ids = [];
      unlocking_ids = [];
      completed_ids = [];
      failed_ids = [];
    }

-- The inner `while` loop: tasks are popped while there is room for another worker.
pub take_batch : ℕ → List String → List String × List String
take_batch room [] = ([], [])
take_batch zero (x ∷ xs) = ([], x ∷ xs)
take_batch (suc room) (x ∷ xs) = let (batch, rest) = take_batch room xs in (x ∷ batch, rest)

-- The first part of each callback: the task moves from the pending ids to the running ids.
pub begin_all : List String → Execution → Execution
begin_all [] s = s
begin_all (t ∷ ts) s =
    begin_all ts
      (record s { pending_ids = without t s.pending_ids; running_ids = s.running_ids ++ t ∷ [] })

-- The head of the loop: a batch is taken off the queue, and all of its tasks are begun.
pub launch : ℕ → Execution → Execution
launch max_parallel s =
    let (batch, rest) = take_batch (max_parallel - length s.running_ids) s.queue in
    begin_all batch (record s { queue = rest })

-- `TaskScheduler.scheduleTask` marks the task before it dispatches it.
pub dispatch : String → Execution → Execution
dispatch t s = record s { tasks = set_status t running s.tasks }

pub settle_success : String → Execution → Execution
settle_success t s = record s {
  running_ids = without t s.running_ids;
  tasks = set_status t completed s.tasks;
  succeeded_ids = s.succeeded_ids ++ t ∷ [];
}

pub settle_failure : String → Execution → Execution
settle_failure t s = record s {
  running_ids = without t s.running_ids;
  tasks = set_status t failed s.tasks;
  failing_ids = s.failing_ids ++ t ∷ [];
}

pub record_success : String → Execution → Execution
record_success t s = record s {
  succeeded_ids = without t s.succeeded_ids;
  completed_ids = s.completed_ids ++ t ∷ [];
  unlocking_ids = s.unlocking_ids ++ t ∷ [];
}

pub record_failure : String → Execution → Execution
record_failure t s = record s {
  failing_ids = without t s.failing_ids;
  failed_ids = s.failed_ids ++ t ∷ [];
}

pub unlock : String → Execution → Execution
unlock t s =
    let after = unlock_ready_tasks s.completed_ids s.tasks s.queue [] in
    record s { tasks = after.tasks; queue = after.queue; unlocking_ids = without t s.unlocking_ids }

-- Every callback of the batch has returned.
pub record IsIdle (s : Execution) : Type 0 where
  pub no_running : s.running_ids ≡ []
  pub no_succeeded : s.succeeded_ids ≡ []
  pub no_failing : s.failing_ids ≡ []
  pub no_unlocking : s.unlocking_ids ≡ []

-- One step of the orchestrator. Which task goes on next is not determined.
pub data Step (max_parallel : ℕ) (s : Execution) : Execution → Type 0 where
  launches : IsIdle s → Step max_parallel s (launch max_parallel s)
  dispatches : (t : String) → 0 < count t s.running_ids → Step max_parallel s (dispatch t s)
  succeeds : (t : String) → 0 < count t s.running_ids → Step max_parallel s (settle_success t s)
  fails : (t : String) → 0 < count t s.running_ids → Step max_parallel s (settle_failure t s)
  records_success :
      (t : String) → 0 < count t s.succeeded_ids → Step max_parallel s (record_success t s)
  records_failure :
      (t : String) → 0 < count t s.failing_ids → Step max_parallel s (record_failure t s)
  unlocks_next : (t : String) → 0 < count t s.unlocking_ids → Step max_parallel s (unlock t s)

pub data Reach (max_parallel : ℕ) (plan_tasks : List MissionTask) : Execution → Type 0 where
  here : Reach max_parallel plan_tasks (start plan_tasks)
  next :
      {s u : Execution}
      → Reach max_parallel plan_tasks s
      → Step max_parallel s u
      → Reach max_parallel plan_tasks u

-- The end of `executeMissionPlan`: `success` of the result.
unfoldable pub all_done : Execution → Bool
all_done s = nat_eq (length s.completed_ids) (length s.tasks)
