-- ===== src/Missions/Attempts/Tests.antt =====
-- Runs of the attempts: two failures before a success, and four rejected reviews.
use local_first_se_platform.Base.{
  ◌+◌, contains, ℕ, ◌≤◌, ◌<◌, ◌≡◌, refl, ◌⊎◌, true, false, some, [], ◌∷◌, leb, if◌then◌else◌, count,
  lookup,
}
use local_first_se_platform.Missions.Attempts.{
  OrchestratorPolicy, Outcome, dispatch_failed, verification_failed, succeeded, RepairState,
  fresh_attempts, status_failed, run_attempts, attempt_loop, goes_on, finish_attempt, begin_attempt,
  back_off, remove_worktree, repairs_of, is_repairable,
}
use local_first_se_platform.Missions.Attempts.Tries.{passes}
use local_first_se_platform.Missions.Attempts.Bounded.{
  undelayed, never_waits, run_attempts_first_success, run_attempts_ignores_auto_retry,
}
use local_first_se_platform.Missions.Attempts.Repair.{retry_all, retry_all_result, passes_in_time}

abbrev policy : OrchestratorPolicy
policy = record { max_task_retries = 2; auto_retry_on_failure = true; makes_worktrees = true }

abbrev third_time : ℕ → Outcome
third_time n =
    if leb n 1 then dispatch_failed else if leb n 2 then verification_failed else succeeded

third_time_succeeds : (run_attempts policy third_time).delays ≡ 100 ∷ 200 ∷ []
unfolding run_attempts attempt_loop goes_on finish_attempt begin_attempt back_off remove_worktree
third_time_succeeds = refl

run_attempts_first_success_example :
    let r = run_attempts policy third_time in
    (attempt_loop 8 policy third_time fresh_attempts ≡ r)
    × (goes_on policy r ≡ false)
    × (1 ≤ r.attempt)
    × (r.attempt ≤ 3)
    × ((k : ℕ) → 1 ≤ k → k < r.attempt → passes policy (third_time k) ≡ false)
    × (r.task_success ≡ passes policy (third_time r.attempt))
    × (r.task_success ≡ false → r.attempt ≡ 3)
run_attempts_first_success_example = run_attempts_first_success 5 policy third_time

run_attempts_ignores_auto_retry_example :
    undelayed (run_attempts policy third_time) ≡ run_attempts (never_waits policy) third_time
run_attempts_ignores_auto_retry_example = run_attempts_ignores_auto_retry policy third_time

abbrev reviewed : RepairState
reviewed = record {
  plan_tasks = some ("t" ∷ []);
  has_state = true;
  repair_attempts = [];
  completed_ids = [];
  failed_ids = [];
  statuses = [];
  dispatched = [];
}

none_counted : repairs_of "t" reviewed ≡ 0
unfolding repairs_of lookup
none_counted = refl

-- The first repair fails, the second passes, and the fourth comes too late.
retry_all_result_example :
    let after = retry_all "t" (false ∷ true ∷ false ∷ true ∷ []) reviewed in
    ((is_repairable "t" reviewed ≡ false) × (after ≡ reviewed))
    ⊎ ((is_repairable "t" reviewed ≡ true)
        × (count "t" after.dispatched ≡ count "t" reviewed.dispatched + 3)
        × (lookup "t" after.statuses ≡ some status_failed)
        × (contains "t" after.failed_ids ≡ true)
        × (contains "t" after.completed_ids ≡ true))
unfolding passes_in_time
retry_all_result_example =
    retry_all_result "t" (false ∷ true ∷ false ∷ []) true reviewed none_counted
