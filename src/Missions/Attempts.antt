-- ===== src/Missions/Attempts.antt =====
-- The attempts at one task in src/v2/application/missions/mission_execution_orchestrator.ts: the
-- `while` loop of the task's callback, and `retryTaskAfterReview`. How each attempt ends comes from
-- the dispatcher, the verification pipeline and git, so it is an argument.
mod Tests
pub mod Tries
pub mod Bounded
pub mod Repair
use local_first_se_platform.Base.{
  or_else, ℕ, zero, suc, ◌+◌, ◌*◌, String, Bool, true, false, not, ◌&&◌, Option, none, some, List,
  [], ◌∷◌, ◌++◌, ltb, leb, if◌then◌else◌, ◌==◌, contains, one_if, Dict, lookup, insert,
}

-- `makes_worktrees`: there is a workspace engine, and the workspace is a git repository, so that
-- each attempt gets a worktree.
pub record OrchestratorPolicy : Type 0 where
  pub max_task_retries : ℕ
  pub auto_retry_on_failure : Bool
  pub makes_worktrees : Bool

-- How one attempt ends.
pub data Outcome : Type 0 where
  dispatch_failed verification_failed merge_failed succeeded : Outcome

pub record AttemptState : Type 0 where
  pub attempt : ℕ
  pub task_success : Bool
  pub worktrees_created : ℕ
  pub worktrees_merged : ℕ
  pub worktrees_removed : ℕ
  -- The waits between the attempts, in milliseconds.
  pub delays : List ℕ

abbrev pub fresh_attempts : AttemptState
fresh_attempts = record {
  attempt = 0;
  task_success = false;
  worktrees_created = 0;
  worktrees_merged = 0;
  worktrees_removed = 0;
  delays = [];
}

-- `attempt++`, and the worktree that an attempt works in.
unfoldable pub begin_attempt : OrchestratorPolicy → AttemptState → AttemptState
unfolding one_if
begin_attempt p s = record s {
  attempt = s.attempt + 1;
  worktrees_created = s.worktrees_created + one_if p.makes_worktrees;
}

unfoldable pub remove_worktree : OrchestratorPolicy → AttemptState → AttemptState
unfolding one_if
remove_worktree p s = record s {
  worktrees_removed = s.worktrees_removed + one_if p.makes_worktrees;
}

-- `if (attempt <= maxTaskRetries && autoRetryOnFailure) await setTimeout(100 * attempt)`
unfoldable pub back_off : OrchestratorPolicy → AttemptState → AttemptState
back_off p s =
    if leb s.attempt p.max_task_retries && p.auto_retry_on_failure
    then record s { delays = s.delays ++ (100 * s.attempt) ∷ [] }
    else s

-- What follows the dispatch. A merge can only fail where there is a worktree to merge; without one
-- a verified task has succeeded.
unfoldable pub finish_attempt : OrchestratorPolicy → Outcome → AttemptState → AttemptState
unfolding remove_worktree back_off one_if
finish_attempt p dispatch_failed s = back_off p (remove_worktree p s)
finish_attempt p verification_failed s = remove_worktree p (back_off p s)
finish_attempt p merge_failed s =
    if p.makes_worktrees then remove_worktree p s else record s { task_success = true }
finish_attempt p succeeded s = record s {
  task_success = true;
  worktrees_merged = s.worktrees_merged + one_if p.makes_worktrees;
}

-- `attempt <= policy.maxTaskRetries && !taskSuccess`
unfoldable pub goes_on : OrchestratorPolicy → AttemptState → Bool
goes_on p s = leb s.attempt p.max_task_retries && not s.task_success

-- The loop, on fuel. The oracle says how the attempt of a number ends.
unfoldable pub attempt_loop : ℕ → OrchestratorPolicy → (ℕ → Outcome) → AttemptState → AttemptState
unfolding begin_attempt finish_attempt goes_on
attempt_loop zero p oracle s = s
attempt_loop (suc fuel) p oracle s =
    let more =
      attempt_loop fuel p oracle (finish_attempt p (oracle (s.attempt + 1)) (begin_attempt p s)) in
    if goes_on p s then more else s

-- The loop tests `attempt` at most `maxTaskRetries + 1` times with success.
unfoldable pub run_attempts : OrchestratorPolicy → (ℕ → Outcome) → AttemptState
unfolding attempt_loop
run_attempts p oracle = attempt_loop (p.max_task_retries + 1) p oracle fresh_attempts

-- A task as `retryTaskAfterReview` sees it. `repair_attempts` has the keys
-- `${missionId}:${taskId}`; these are the ones of one mission, by task.
pub data RepairStatus : Type 0 where
  status_completed status_failed : RepairStatus

pub record RepairState : Type 0 where
  -- The tasks of the mission's plan, if it has one, and whether the mission has a state.
  pub plan_tasks : Option (List String)
  pub has_state : Bool
  pub repair_attempts : Dict ℕ
  pub completed_ids : List String
  pub failed_ids : List String
  pub statuses : Dict RepairStatus
  -- The dispatches of repairs, in order.
  pub dispatched : List String

abbrev pub max_review_repair_attempts : ℕ
max_review_repair_attempts = 3

-- `if (!ids.includes(id)) ids.push(id)`
unfoldable pub push_new : String → List String → List String
push_new x xs = if contains x xs then xs else xs ++ x ∷ []

unfoldable pub without : String → List String → List String
without id [] = []
without id (x ∷ xs) = if x == id then without id xs else x ∷ without id xs

unfoldable pub mark_failed : String → RepairState → RepairState
unfolding push_new
mark_failed id s = record s {
  statuses = insert id status_failed s.statuses;
  failed_ids = push_new id s.failed_ids;
}

unfoldable pub mark_repaired : String → RepairState → RepairState
unfolding push_new without
mark_repaired id s = record s {
  statuses = insert id status_completed s.statuses;
  completed_ids = push_new id s.completed_ids;
  failed_ids = without id s.failed_ids;
}

unfoldable pub repairs_of : String → RepairState → ℕ
repairs_of id s = or_else (lookup id s.repair_attempts) 0

-- `plan`, `task` and `state` are all there.
abbrev pub is_repairable : String → RepairState → Bool
is_repairable id s = elim s.plan_tasks [ none ↦ false | some ids ↦ contains id ids ] && s.has_state

-- `passed`: the worker's report says COMPLETED, and its verification succeeds.
unfoldable pub retry_task_after_review : String → Bool → RepairState → RepairState
unfolding mark_failed mark_repaired repairs_of
retry_task_after_review id passed s =
    let attempts = repairs_of id s + 1 in
    let counted = record s { repair_attempts = insert id attempts s.repair_attempts } in
    let tried = record counted { dispatched = counted.dispatched ++ id ∷ [] } in
    if not (is_repairable id s)
    then s
    else if ltb max_review_repair_attempts attempts
    then mark_failed id counted
    else if passed
    then mark_repaired id tried
    else mark_failed id tried
