-- ===== src/Core/TaskRun/Halting.antt =====
-- How a run over the sub-tasks ends.
use local_first_se_platform.Base.{
  ℕ, ◌+◌, String, ◌≡◌, refl, subst, Bool, true, false, Option, none, some, List, [], ◌∷◌, arith,
  length, filter, every,
}
use local_first_se_platform.Core.Repository.{Repo}
use local_first_se_platform.Core.Round.{SubTask, Failure, Run}
use local_first_se_platform.Core.TaskRun.{
  SubTaskStatus, pending, running, success, failed, skipped, World, Finished, finished, skip_all,
  success_result, failed_result, fresh_run, is_success, is_failed, completed_sub_tasks,
  failed_sub_tasks, skipped_sub_tasks, EngineeringTask, execute_task,
}
use local_first_se_platform.Core.TaskRun.Loop.{OnFinished, sub_task_loop_inv, execute_task_inv}

abbrev pub is_skipped : SubTaskStatus → Bool
is_skipped skipped = true
is_skipped _ = false

-- The statuses of a plan after a run: successes, and then nothing, or one failure and what it
-- skipped.
pub data Halts : List SubTaskStatus → Bool → Type 0 where
  all_done : Halts [] true
  halted : (xs : List SubTaskStatus) → every is_skipped xs ≡ true → Halts (failed ∷ xs) false
  onwards : (xs : List SubTaskStatus) (ok : Bool) → Halts xs ok → Halts (success ∷ xs) ok

abbrev pub tally : (SubTaskStatus → Bool) → List SubTaskStatus → ℕ
tally p xs = length (filter p xs)

-- What the report says of the plan `sts`.
pub record Reports (sts : List SubTask) (f : Finished) : Type 0 where
  pub halts : Halts f.statuses f.succeeded
  pub total : length f.statuses ≡ length sts
  pub completed : completed_sub_tasks f ≡ tally is_success f.statuses
  pub failures : failed_sub_tasks f ≡ tally is_failed f.statuses

skip_all-skipped : (sts : List SubTask) → every is_skipped (skip_all sts) ≡ true
skip_all-skipped [] = refl
skip_all-skipped (st ∷ sts) = skip_all-skipped sts

skip_all-tally :
    (sts : List SubTask)
    → (length (skip_all sts) ≡ length sts)
      × (tally is_success (skip_all sts) ≡ 0)
      × (tally is_failed (skip_all sts) ≡ 0)
skip_all-tally [] = (refl, refl, refl)
skip_all-tally (st ∷ sts) = grind (arith, skip_all-tally sts)

skipped-tally :
    (xs : List SubTaskStatus)
    → every is_skipped xs ≡ true
    → (tally is_success xs ≡ 0) × (tally is_failed xs ≡ 0) × (tally is_skipped xs ≡ length xs)
skipped-tally [] h = (refl, refl, refl)
skipped-tally (skipped ∷ xs) h = ground (arith, skipped-tally xs h)
skipped-tally (pending ∷ xs) h = cc
skipped-tally (running ∷ xs) h = cc
skipped-tally (success ∷ xs) h = cc
skipped-tally (failed ∷ xs) h = cc

-- Every status of a finished plan is a success, a failure or skipped.
Halts-tally :
    {xs : List SubTaskStatus} {ok : Bool}
    → Halts xs ok
    → tally is_success xs + tally is_failed xs + tally is_skipped xs ≡ length xs
Halts-tally all_done = refl
Halts-tally (halted xs skips) = ground (arith, skipped-tally xs skips)
Halts-tally (onwards xs ok h) = omega (arith, Halts-tally h)

Reports-stop :
    (s : Run) (st : SubTask) (sts : List SubTask) (retries : ℕ) (reason : Failure)
    → Reports (st ∷ sts) (record {
      run_state = s;
      statuses = failed ∷ skip_all sts;
      results = failed_result st retries reason ∷ [];
      succeeded = false;
      last_error = some reason;
    })
unfolding completed_sub_tasks failed_sub_tasks
Reports-stop s st sts retries reason =
    let (size, none_done, none_failed) = skip_all-tally sts in
    record {
      halts = halted (skip_all sts) (skip_all-skipped sts);
      total = omega (arith, size);
      completed = omega (arith, none_done);
      failures = omega (arith, none_failed);
    }

Reports-onwards :
    (st : SubTask) (sts : List SubTask) (retries : ℕ) (hash : Option String) (f : Finished)
    → Reports sts f
    → Reports (st ∷ sts) (record f {
      statuses = success ∷ f.statuses;
      results = success_result st retries hash ∷ f.results;
    })
unfolding completed_sub_tasks failed_sub_tasks
Reports-onwards st sts retries hash f h = record {
  halts = onwards f.statuses f.succeeded h.halts;
  total = omega (arith, h.total);
  completed = omega (arith, h.completed);
  failures = omega (arith, h.failures);
}

Reports-empty :
    (s : Run)
    → Reports []
        (record { run_state = s; statuses = []; results = []; succeeded = true; last_error = none })
unfolding completed_sub_tasks failed_sub_tasks
Reports-empty s = record { halts = all_done; total = refl; completed = refl; failures = refl }

execute_task-Reports :
    (max_retry : ℕ) (w : World) (task : EngineeringTask) (sts : List SubTask) (repo : Repo)
    → OnFinished (Reports sts) (execute_task max_retry w task sts repo)
execute_task-Reports max_retry w task sts repo =
    execute_task_inv (Reports sts) max_retry w task sts repo (
      sub_task_loop_inv (λ (index : ℕ) (s : Run). Unit {0})
        (λ (index : ℕ) (sts : List SubTask) (s : Run). Reports sts) max_retry w
        (λ index s h. Reports-empty s)
        (λ index st sts s hash h e. (tt, λ f. Reports-onwards st sts _ hash f))
        (λ index st sts s reason h e. Reports-stop _ st sts _ reason) 0 sts (fresh_run repo) tt)

-- A task that is run to its end leaves its plan as successes, followed either by nothing, and then
-- the run is a success, or by one failed sub-task and all later ones skipped, and then it is not.
-- Every sub-task has a status, and the report's three counts are the numbers of these statuses.
pub execute_task_halts :
    (max_retry : ℕ) (w : World) (task : EngineeringTask) (sts : List SubTask) (repo : Repo)
    (f : Finished)
    → execute_task max_retry w task sts repo ≡ finished f
    → Halts f.statuses f.succeeded
      × (length f.statuses ≡ length sts)
      × (completed_sub_tasks f ≡ tally is_success f.statuses)
      × (failed_sub_tasks f ≡ tally is_failed f.statuses)
      × (skipped_sub_tasks (length sts) f ≡ tally is_skipped f.statuses)
unfolding skipped_sub_tasks
execute_task_halts max_retry w task sts repo f e =
    let r : Reports sts f =
      subst (OnFinished (Reports sts)) e (execute_task-Reports max_retry w task sts repo) in
    (
      r.halts,
      r.total,
      r.completed,
      r.failures,
      omega (arith, Halts-tally r.halts, r.total, r.completed, r.failures),
    )
