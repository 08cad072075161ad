-- ===== src/Core/TaskRun/Tests.antt =====
-- Runs over two sub-tasks, of which the second fails.
use local_first_se_platform.Base.{
  ℕ, zero, suc, ◌+◌, ◌≤◌, String, ◌≡◌, refl, true, false, none, some, List, [], ◌∷◌, same_id,
  length, every, contains,
}
use local_first_se_platform.Base.Text.{
  is_blank, is_empty_text, trim, trim_start, trim_end, is_space, ends_with, includes,
}
use local_first_se_platform.Core.Commands.{
  CommandRun, no_handle, ran, run, run_exact, run_commands, passes, tried, is_started,
}
use local_first_se_platform.Core.Repository.{
  Repo, IsClean, CommitRuns, Works, commit, rollback, git_add, git_commit, git_reset, git_clean,
}
use local_first_se_platform.Core.Patches.{
  generate_patches, generate, matched_file, update, apply_patches, apply_patch,
}
use local_first_se_platform.Core.Round.{
  SubTask, crashes, replies, Attempt, checkpoint, add_new, verify_round, write_round, replied,
  round,
}
use local_first_se_platform.Core.TaskRun.{
  retry_loop, World, Finished, finished, Outcome, refused, roll_back, sub_task_loop, fresh_run,
  EngineeringTask, execute_task, completed_sub_tasks, failed_sub_tasks, skipped_sub_tasks,
  is_success, is_failed,
}
use local_first_se_platform.Core.TaskRun.Retries.{retry_loop_ends}
use local_first_se_platform.Core.TaskRun.Halting.{Halts, tally, is_skipped, execute_task_halts}
use local_first_se_platform.Core.TaskRun.Recovery.{IsReadOnly, delivered, execute_task_recovers}
use local_first_se_platform.Core.TaskRun.Losses.{IsInert, failed_commits_lose_work}

abbrev ok_run : CommandRun
ok_run = ran (some 0)

abbrev empty_repo : Repo
empty_repo = record { work = λ p. none; index = λ p. none; head = λ p. none }

abbrev commits_with : CommandRun → CommitRuns
commits_with r = record { add = ok_run; commit = r; rev_parse = ok_run; hash = "abc" }

-- The provider answers with one block for "a.ts".
abbrev answer : CommandRun → Attempt
answer commit_run = record {
  reply = replies true "text" none;
  blocks = record { file_name = some "a.ts"; content = " x; "; language = none } ∷ [];
  is_valid = true;
  validation_errors = [];
  faults = record { read_fails = λ p. false; write_fails = λ p. false };
  verification = ("npm test", ok_run) ∷ [];
  side_effects = λ files. files;
  commit_runs = commits_with commit_run;
}

abbrev crash : CommandRun → Attempt
crash commit_run = record (answer commit_run) { reply = crashes "killed" }

abbrev attempts_of : CommandRun → ℕ → ℕ → Attempt
attempts_of commit_run zero n = answer commit_run
attempts_of commit_run (suc index) n = crash commit_run

abbrev world : CommandRun → World
world commit_run = record {
  context_error = λ index. none;
  attempts = attempts_of commit_run;
  rollback_runs = λ index. record { reset = ok_run; clean = ok_run };
}

abbrev task : EngineeringTask
task = record { id = "t"; description = "add x" }

abbrev sub_task : String → SubTask
sub_task file = record { id = file; target_file = file; objective = "o" }

abbrev plan : List SubTask
plan = sub_task "a.ts" ∷ sub_task "b.ts" ∷ sub_task "c.ts" ∷ []

abbrev finished_or : Finished → Outcome → Finished
finished_or f (refused message) = f
finished_or f (finished g) = g

abbrev nothing : Finished
nothing = record {
  run_state = fresh_run empty_repo;
  statuses = [];
  results = [];
  succeeded = true;
  last_error = none;
}

outcome : CommandRun → Outcome
outcome commit_run = execute_task 2 (world commit_run) task plan empty_repo

result : CommandRun → Finished
result commit_run = finished_or nothing (outcome commit_run)

ran_to_end : outcome ok_run ≡ finished (result ok_run)
unfolding outcome result execute_task sub_task_loop retry_loop round replied write_round
    verify_round generate_patches generate matched_file update apply_patches apply_patch is_blank
    is_space is_empty_text trim trim_start trim_end ends_with includes run run_commands checkpoint
    commit git_add git_commit roll_back rollback git_reset git_clean add_new same_id
ran_to_end = refl

failed_to_commit : outcome (ran (some 1)) ≡ finished (result (ran (some 1)))
unfolding outcome result execute_task sub_task_loop retry_loop round replied write_round
    verify_round generate_patches generate matched_file update apply_patches apply_patch is_blank
    is_space is_empty_text trim trim_start trim_end ends_with includes run run_commands checkpoint
    commit git_add git_commit roll_back rollback git_reset git_clean add_new same_id
failed_to_commit = refl

execute_task_halts_example :
    Halts (result ok_run).statuses (result ok_run).succeeded
    × (length (result ok_run).statuses ≡ 3)
    × (completed_sub_tasks (result ok_run) ≡ tally is_success (result ok_run).statuses)
    × (failed_sub_tasks (result ok_run) ≡ tally is_failed (result ok_run).statuses)
    × (skipped_sub_tasks 3 (result ok_run) ≡ tally is_skipped (result ok_run).statuses)
unfolding outcome
execute_task_halts_example =
    execute_task_halts 2 (world ok_run) task plan empty_repo (result ok_run) ran_to_end

world-Works : (index n : ℕ) → Works (attempts_of ok_run index n).commit_runs
world-Works zero n = (refl, refl)
world-Works (suc index) n = (refl, refl)

world-IsReadOnly : IsReadOnly (world ok_run)
world-IsReadOnly zero n files = refl
world-IsReadOnly (suc index) n files = refl

execute_task_recovers_example :
    IsClean (result ok_run).run_state.repo
    × ((p : String)
        → contains p (delivered (result ok_run).results) ≡ false
        → (result ok_run).run_state.repo.work p ≡ none)
unfolding outcome
execute_task_recovers_example =
    execute_task_recovers 2 (world ok_run) task plan empty_repo (result ok_run)
      (record { commits = world-Works; rollbacks = λ index. (refl, refl) }) world-IsReadOnly
      (λ p. refl) ran_to_end

-- The first sub-task delivered its file.
a_is_delivered :
    (delivered (result ok_run).results ≡ "a.ts" ∷ [])
    × ((result ok_run).run_state.repo.work "a.ts" ≡ some "x;")
unfolding delivered outcome result execute_task sub_task_loop retry_loop round replied write_round
    verify_round generate_patches generate matched_file update apply_patches apply_patch is_blank
    is_space is_empty_text trim trim_start trim_end ends_with includes run run_commands checkpoint
    commit git_add git_commit roll_back rollback git_reset git_clean add_new same_id
a_is_delivered = (refl, refl)

world-IsInert : (index n : ℕ) → IsInert (attempts_of (ran (some 1)) index n).commit_runs
world-IsInert zero n = refl
world-IsInert (suc index) n = refl

failed_commits_lose_work_example : (result (ran (some 1))).run_state.repo.work "a.ts" ≡ none
unfolding outcome result execute_task sub_task_loop retry_loop round replied write_round
    verify_round generate_patches generate matched_file update apply_patches apply_patch is_blank
    is_space is_empty_text trim trim_start trim_end ends_with includes run run_commands checkpoint
    commit git_add git_commit roll_back rollback git_reset git_clean add_new same_id
failed_commits_lose_work_example =
    failed_commits_lose_work 2 (world (ran (some 1))) task plan empty_repo (result (ran (some 1)))
      "a.ts" (record { commits = world-IsInert; rollbacks = λ index. (refl, refl) })
      failed_to_commit refl

-- A provider that never succeeds: all of its answers are failures.
abbrev never : ℕ → Attempt
never n = record (answer ok_run) { reply = replies false "" none }

retry_loop_ends_example :
    let r = retry_loop 5 1 0 (sub_task "a.ts") never 0 (fresh_run empty_repo) in
    (r ≡ retry_loop 2 1 0 (sub_task "a.ts") never 0 (fresh_run empty_repo))
    × (r.run_state.total_retry_count ≡ 0 + r.retry_count)
    × (length r.run_state.retry_history ≡ 0 + r.retry_count)
    × (r.retry_count ≤ 1)
retry_loop_ends_example = retry_loop_ends 3 1 0 (sub_task "a.ts") never (fresh_run empty_repo) refl

abbrev commands : List (String × CommandRun)
commands = ("npm run build", ok_run) ∷ (" ", no_handle) ∷ ("npm test", ran (some 1)) ∷ []

run_exact_example :
    ((run commands).success ≡ every passes commands)
    × ((run commands).steps ≡ tried commands)
    × (every is_started commands ≡ true
        → (run commands).success ≡ true
        → ((run commands).build_passed ≡ true) × ((run commands).tests_passed ≡ true))
run_exact_example = run_exact commands
