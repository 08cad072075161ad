-- ===== src/Missions/Execution/Tests.antt =====
-- Runs of the mission execution: two tasks, of which the second waits for the first.
use local_first_se_platform.Base.{
  differs, ℕ, ◌<◌, if◌then◌else◌, ◌==◌, contains, ◌+◌, ◌≤◌, String, ◌≡◌, refl, sym, ◌∙◌, true, none,
  List, [], ◌∷◌, arith, same_id, length, one_if, count,
}
use local_first_se_platform.Missions.Plan.{high, pending, MissionTask, ids, set_status, find_task}
use local_first_se_platform.Missions.ReadyQueue.{
  initialize_from_plan, unlock_ready_tasks, all_completed,
}
use local_first_se_platform.Missions.ReadyQueue.Unlocking.{IsDistinct}
use local_first_se_platform.Missions.Execution.{
  Execution, IsIdle, settle_failure, record_failure, fails, records_failure, all_done, Reach, here,
  next, launches, dispatches, succeeds, records_success, unlocks_next, start, launch, take_batch,
  begin_all, without, dispatch, settle_success, record_success, unlock,
}
use local_first_se_platform.Missions.Execution.Inv.{begun}
use local_first_se_platform.Missions.Execution.Progress.{
  Cut, Ranked, IsClosed, exit_cuts, no_failure_no_deadlock,
}
use local_first_se_platform.Missions.Execution.Completion.{success_completes_all}
use local_first_se_platform.Missions.Execution.Safety.{
  dependencies_of, Reach-deps_completed, Reach-conserves, Reach-running_le,
}

abbrev task : String → List String → MissionTask
task id dependencies = record {
  id = id;
  mission_id = "m";
  title = id;
  description = "";
  required_capability = "Backend";
  priority = high;
  status = pending;
  dependencies = dependencies;
  assigned_department_id = none;
  assigned_worker_id = none;
  estimated_complexity = 1;
}

abbrev two_tasks : List MissionTask
two_tasks = task "a" [] ∷ task "b" ("a" ∷ []) ∷ []

a_is_not_b : (v : String) → "a" ≡ v → "b" ≡ v → ⊥
unfolding same_id
a_is_not_b v h k = differs "a" "b" refl (h ∙ sym k)

two_tasks-IsDistinct : IsDistinct (ids two_tasks)
unfolding count one_if
two_tasks-IsDistinct v = ground (arith, a_is_not_b v)

after_launch : Execution
after_launch = launch 2 (start two_tasks)

after_unlock : Execution
after_unlock = unlock "a" (record_success "a" (settle_success "a" (dispatch "a" after_launch)))

first_launch : Reach 2 two_tasks after_launch
unfolding after_launch start initialize_from_plan
first_launch = next here (
    launches
      (record { no_running = refl; no_succeeded = refl; no_failing = refl; no_unlocking = refl }))

first_task_done : Reach 2 two_tasks after_unlock
unfolding after_unlock after_launch launch start initialize_from_plan take_batch begin_all without
    dispatch settle_success record_success unlock count one_if same_id set_status
first_task_done =
    next
      (next (next (next first_launch (dispatches "a" (omega arith))) (succeeds "a" (omega arith)))
        (records_success "a" (omega arith)))
      (unlocks_next "a" (omega arith))

second_launch : Reach 2 two_tasks (launch 2 after_unlock)
unfolding after_unlock after_launch launch start initialize_from_plan take_batch begin_all without
    dispatch settle_success record_success unlock same_id set_status
second_launch = next first_task_done (
    launches
      (record { no_running = refl; no_succeeded = refl; no_failing = refl; no_unlocking = refl }))

Reach-deps_completed_example :
    all_completed (launch 2 after_unlock).completed_ids (dependencies_of two_tasks "b") ≡ true
unfolding after_unlock after_launch launch start initialize_from_plan take_batch begin_all without
    dispatch settle_success record_success unlock unlock_ready_tasks count one_if same_id set_status
Reach-deps_completed_example =
    Reach-deps_completed 2 two_tasks "b" two_tasks-IsDistinct second_launch (omega arith)

Reach-conserves_example :
    count "b" (launch 2 after_unlock).pending_ids + begun "b" (launch 2 after_unlock)
    ≡ count "b" (ids two_tasks)
Reach-conserves_example = Reach-conserves 2 two_tasks "b" two_tasks-IsDistinct second_launch

Reach-running_le_example : length (launch 2 after_unlock).running_ids ≤ 2
Reach-running_le_example = Reach-running_le 2 two_tasks second_launch

abbrev one_task : List MissionTask
one_task = task "a" [] ∷ []

one_task-IsDistinct : IsDistinct (ids one_task)
unfolding count one_if
one_task-IsDistinct v = ground arith

one_task_recorded : Execution
one_task_recorded = record_success "a" (settle_success "a" (launch 1 (start one_task)))

one_task-Reach : Reach 1 one_task one_task_recorded
unfolding one_task_recorded launch start initialize_from_plan take_batch begin_all without
    settle_success record_success count one_if same_id set_status
one_task-Reach =
    next
      (next
        (next here (
          launches (record {
            no_running = refl;
            no_succeeded = refl;
            no_failing = refl;
            no_unlocking = refl;
          })))
        (succeeds "a" (omega arith)))
      (records_success "a" (omega arith))

success_completes_all_example :
    (count "a" one_task_recorded.completed_ids ≡ count "a" (ids one_task))
    × (count "a" one_task_recorded.pending_ids ≡ 0)
    × (count "a" one_task_recorded.running_ids ≡ 0)
    × (count "a" one_task_recorded.failed_ids ≡ 0)
unfolding one_task_recorded launch start initialize_from_plan take_batch begin_all without
    settle_success record_success same_id set_status all_done
success_completes_all_example =
    success_completes_all 1 one_task "a" one_task-IsDistinct one_task-Reach refl

after_failure : Execution
after_failure = record_failure "a" (settle_failure "a" after_launch)

after_failure-Reach : Reach 2 two_tasks after_failure
unfolding after_failure after_launch launch start initialize_from_plan take_batch begin_all without
    settle_failure record_failure count one_if same_id set_status
after_failure-Reach =
    next (next first_launch (fails "a" (omega arith))) (records_failure "a" (omega arith))

after_failure-IsIdle : IsIdle after_failure
unfolding after_failure after_launch launch start initialize_from_plan take_batch begin_all without
    settle_failure record_failure same_id
after_failure-IsIdle = record {
  no_running = refl;
  no_succeeded = refl;
  no_failing = refl;
  no_unlocking = refl;
}

-- "a" comes first.
place : String → ℕ
place v = if v == "a" then 0 else 1

two_tasks-deps :
    (v d : String) → contains d (dependencies_of two_tasks v) ≡ true → ("a" ≡ d) × ("b" ≡ v)
unfolding dependencies_of find_task
two_tasks-deps v d h = ground (arith, a_is_not_b v, a_is_not_b d)

two_tasks-Ranked : Ranked (dependencies_of two_tasks) place
unfolding place
two_tasks-Ranked v d h = ground (arith, two_tasks-deps v d h, a_is_not_b v, a_is_not_b d)

two_tasks-IsClosed : IsClosed (dependencies_of two_tasks) (ids two_tasks)
unfolding count one_if
two_tasks-IsClosed v d h = ground (arith, two_tasks-deps v d h)

exit_cuts_example : Cut (dependencies_of two_tasks) (ids two_tasks) after_failure.failed_ids "b"
unfolding after_failure after_launch launch start initialize_from_plan take_batch begin_all without
    settle_failure record_failure count one_if same_id
exit_cuts_example =
    exit_cuts 2 two_tasks place "b" two_tasks-IsDistinct two_tasks-Ranked after_failure-Reach
      after_failure-IsIdle refl (omega arith)

after_unlock-IsIdle : IsIdle after_unlock
unfolding after_unlock after_launch launch start initialize_from_plan take_batch begin_all without
    dispatch settle_success record_success unlock same_id
after_unlock-IsIdle = record {
  no_running = refl;
  no_succeeded = refl;
  no_failing = refl;
  no_unlocking = refl;
}

no_failure_no_deadlock_example : 0 < length (launch 2 after_unlock).running_ids
unfolding after_unlock after_launch launch start initialize_from_plan take_batch begin_all without
    dispatch settle_success record_success unlock unlock_ready_tasks same_id all_done set_status
no_failure_no_deadlock_example =
    no_failure_no_deadlock 2 two_tasks place (omega arith) two_tasks-IsDistinct two_tasks-IsClosed
      two_tasks-Ranked first_task_done after_unlock-IsIdle refl refl
