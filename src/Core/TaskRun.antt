-- ===== src/Core/TaskRun.antt =====
-- `executeTask` of src/core/application/services/task_execution_service.ts. What the AI provider,
-- the processes and the file system answer in each round of each sub-task is an input, and so are
-- the parsed blocks of a response and its validation report. Prompts, progress messages, logs and
-- times are left out.
pub mod Retries
mod Loop
pub mod Halting
pub mod Recovery
pub mod Losses
mod Tests
use local_first_se_platform.Base.{
  ℕ, zero, suc, ◌+◌, ◌-◌, String, ◌⊎◌, inl, inr, Bool, true, false, Option, none, some, List, [],
  ◌∷◌, ◌++◌, ltb, if◌then◌else◌, length, filter,
}
use local_first_se_platform.Base.Text.{is_blank, is_empty_text}
use local_first_se_platform.Core.Commands.{CommandRun, run}
use local_first_se_platform.Core.Repository.{
  Files, Repo, CommitRuns, RollbackRuns, commit, rollback,
}
use local_first_se_platform.Core.Patches.{ParsedBlock, PatchError, Faults, generate_patches, update}
use local_first_se_platform.Core.Round.{
  SubTask, Attempt, Failure, never_tried, Run, passed, retryable, final, round,
}

pub data SubTaskStatus : Type 0 where
  pending running success failed skipped : SubTaskStatus

pub record Rounds : Type 0 where
  pub run_state : Run
  pub retry_count : ℕ
  pub result : (Option String) ⊎ Failure

abbrev count_retry : ℕ → Run → Run
count_retry retries s = record s {
  total_retry_count = s.total_retry_count + (if ltb 0 retries then 1 else 0);
}

abbrev note_retry : ℕ → ℕ → Failure → Run → Run
note_retry index retries reason s = record s {
  retry_history =
      s.retry_history ++ record { sub_task = index; attempt = retries; reason = reason } ∷ [];
}

-- The retry loop of one sub-task. `rounds` counts how often it can still go round: `maxRetryCount`
-- more rounds follow the first, and the loop stops by itself before they are used up.
unfoldable pub retry_loop : ℕ → ℕ → ℕ → SubTask → (ℕ → Attempt) → ℕ → Run → Rounds
unfolding round
retry_loop zero max_retry index st attempts retries s = record {
  run_state = s;
  retry_count = retries;
  result = inr never_tried;
}
retry_loop (suc rounds) max_retry index st attempts retries s =
    let (s', verdict) = round st (attempts retries) (count_retry retries s) in
    elim verdict [
      | passed hash ↦ record { run_state = s'; retry_count = retries; result = inl hash }
      | final reason ↦ record { run_state = s'; retry_count = retries; result = inr reason }
      | retryable reason ↦ elim (ltb retries max_retry) [
        | true ↦
            retry_loop rounds max_retry index st attempts (retries + 1)
              (note_retry index (retries + 1) reason s')
        | false ↦ record { run_state = s'; retry_count = retries; result = inr reason }
      ]
    ]

pub record SubTaskResult : Type 0 where
  pub sub_task_id : String
  pub target_file : String
  pub status : SubTaskStatus
  pub retry_count : ℕ
  pub verification_passed : Bool
  pub git_commit_hash : Option String
  pub error : Option Failure

-- What the outside does with the sub-task of an index.
pub record World : Type 0 where
  pub context_error : ℕ → Option String
  pub attempts : ℕ → ℕ → Attempt
  pub rollback_runs : ℕ → RollbackRuns

pub record Finished : Type 0 where
  pub run_state : Run
  -- `plan.subTasks` as the loop leaves their statuses, and the results.
  pub statuses : List SubTaskStatus
  pub results : List SubTaskResult
  pub succeeded : Bool
  pub last_error : Option Failure

pub data Outcome : Type 0 where
  refused : String → Outcome
  finished : Finished → Outcome

abbrev pub skip_all : List SubTask → List SubTaskStatus
skip_all [] = []
skip_all (st ∷ sts) = skipped ∷ skip_all sts

abbrev pub success_result : SubTask → ℕ → Option String → SubTaskResult
success_result st retries hash = record {
  sub_task_id = st.id;
  target_file = st.target_file;
  status = success;
  retry_count = retries;
  verification_passed = true;
  git_commit_hash = hash;
  error = none;
}

abbrev pub failed_result : SubTask → ℕ → Failure → SubTaskResult
failed_result st retries reason = record {
  sub_task_id = st.id;
  target_file = st.target_file;
  status = failed;
  retry_count = retries;
  verification_passed = false;
  git_commit_hash = none;
  error = some reason;
}

-- A failed sub-task is rolled back; whether that worked is not looked at. If an exception keeps
-- `git clean` from being run, it is an input without an effect.
unfoldable pub roll_back : RollbackRuns → Run → Run
unfolding rollback
roll_back runs s = record s { repo = (rollback runs s.repo).0 }

-- What the caller gets after one more successful sub-task.
abbrev pub after_success : SubTaskResult → Outcome → Outcome
after_success r (refused message) = refused message
after_success r (finished f) =
    finished (record f { statuses = success ∷ f.statuses; results = r ∷ f.results })

-- The loop over the sub-tasks.
unfoldable pub sub_task_loop : ℕ → World → ℕ → List SubTask → Run → Outcome
unfolding retry_loop roll_back
sub_task_loop max_retry w index [] s =
    finished
      (record { run_state = s; statuses = []; results = []; succeeded = true; last_error = none })
sub_task_loop max_retry w index (st ∷ sts) s = elim (w.context_error index) [
  | some message ↦ refused message
  | none ↦
      let r = retry_loop (suc max_retry) max_retry index st (w.attempts index) 0 s in
      elim r.result [
        | inl hash ↦
            after_success (success_result st r.retry_count hash)
              (sub_task_loop max_retry w (index + 1) sts r.run_state)
        | inr reason ↦ finished (record {
          run_state = roll_back (w.rollback_runs index) r.run_state;
          statuses = failed ∷ skip_all sts;
          results = failed_result st r.retry_count reason ∷ [];
          succeeded = false;
          last_error = some reason;
        })
      ]
]

abbrev pub fresh_run : Repo → Run
fresh_run repo = record {
  repo = repo;
  modified_files = [];
  files_skipped = [];
  total_retry_count = 0;
  retry_history = [];
  last_output = "";
  last_build_passed = false;
  last_tests_passed = false;
}

abbrev pub is_success : SubTaskStatus → Bool
is_success success = true
is_success _ = false

abbrev pub is_failed : SubTaskStatus → Bool
is_failed failed = true
is_failed _ = false

-- The counts of the report.
unfoldable pub completed_sub_tasks : Finished → ℕ
completed_sub_tasks f = length (filter (λ r. is_success r.status) f.results)

unfoldable pub failed_sub_tasks : Finished → ℕ
failed_sub_tasks f = length (filter (λ r. is_failed r.status) f.results)

unfoldable pub skipped_sub_tasks : ℕ → Finished → ℕ
unfolding completed_sub_tasks failed_sub_tasks
skipped_sub_tasks total f = total - completed_sub_tasks f - failed_sub_tasks f

pub record EngineeringTask : Type 0 where
  pub id : String
  pub description : String

-- `executeTask`, with the sub-tasks of the plan.
unfoldable pub execute_task : ℕ → World → EngineeringTask → List SubTask → Repo → Outcome
unfolding sub_task_loop
execute_task max_retry w task sub_tasks repo =
    if is_empty_text task.id
    then refused "Invalid task: Task ID is required"
    else if is_blank task.description
    then refused "Invalid task: Task description cannot be empty"
    else sub_task_loop max_retry w 0 sub_tasks (fresh_run repo)
