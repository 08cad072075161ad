-- ===== src/Core/TaskRun/Loop.antt =====
-- A rule for the loop over the sub-tasks.
use local_first_se_platform.Base.{
  ℕ, suc, ◌+◌, String, ◌≡◌, refl, ◌⊎◌, inl, inr, true, false, Option, none, some, List, [], ◌∷◌,
  Bool-cases, Option-cases,
}
use local_first_se_platform.Base.Text.{is_blank, is_empty_text}
use local_first_se_platform.Core.Repository.{Repo}
use local_first_se_platform.Core.Round.{SubTask, Failure, Run}
use local_first_se_platform.Core.TaskRun.{
  success, failed, retry_loop, SubTaskResult, World, Finished, Outcome, refused, finished, skip_all,
  success_result, failed_result, roll_back, after_success, sub_task_loop, fresh_run,
  EngineeringTask, execute_task,
}

abbrev pub OnFinished {ℓ} : (Finished → Type ℓ) → Outcome → Type ℓ
OnFinished P (refused message) = Unit
OnFinished P (finished f) = P f

result-cases :
    (r : (Option String) ⊎ Failure)
    → ((hash : Option String) × (r ≡ inl hash)) ⊎ ((reason : Failure) × (r ≡ inr reason))
result-cases (inl hash) = inl (hash, refl)
result-cases (inr reason) = inr (reason, refl)

-- A rule for the loop: `B` holds before each sub-task, `P` of what a finished run leaves.
module _ {ℓ κ} (B : ℕ → Run → Type ℓ) (P : ℕ → List SubTask → Run → Finished → Type κ)
    (max_retry : ℕ) (w : World)
    (empty : (index : ℕ) (s : Run)
      → B index s
      → P index [] s (record {
        run_state = s;
        statuses = [];
        results = [];
        succeeded = true;
        last_error = none;
      }))
    (go_on : (index : ℕ) (st : SubTask) (sts : List SubTask) (s : Run) (hash : Option String)
      → B index s
      → let r = retry_loop (suc max_retry) max_retry index st (w.attempts index) 0 s in
        r.result ≡ inl hash
        → B (index + 1) r.run_state
          × ((f : Finished)
              → P (index + 1) sts r.run_state f
              → P index (st ∷ sts) s (record f {
                statuses = success ∷ f.statuses;
                results = success_result st r.retry_count hash ∷ f.results;
              })))
    (stop : (index : ℕ) (st : SubTask) (sts : List SubTask) (s : Run) (reason : Failure)
      → B index s
      → let r = retry_loop (suc max_retry) max_retry index st (w.attempts index) 0 s in
        r.result ≡ inr reason
        → P index (st ∷ sts) s (record {
          run_state = roll_back (w.rollback_runs index) r.run_state;
          statuses = failed ∷ skip_all sts;
          results = failed_result st r.retry_count reason ∷ [];
          succeeded = false;
          last_error = some reason;
        })) where
  after-OnFinished :
      (r : SubTaskResult) (Q R : Finished → Type κ) (o : Outcome)
      → ((f : Finished)
          → Q f
          → R (record f { statuses = success ∷ f.statuses; results = r ∷ f.results }))
      → OnFinished Q o
      → OnFinished R (after_success r o)
  after-OnFinished r Q R (refused message) lift h = tt
  after-OnFinished r Q R (finished f) lift h = lift f h

  pub sub_task_loop_inv :
      (index : ℕ) (sts : List SubTask) (s : Run)
      → B index s
      → OnFinished (P index sts s) (sub_task_loop max_retry w index sts s)
  unfolding sub_task_loop
  sub_task_loop_inv index [] s h = empty index s h
  sub_task_loop_inv index (st ∷ sts) s h =
      let r = retry_loop (suc max_retry) max_retry index st (w.attempts index) 0 s in
      elim (Option-cases (w.context_error index)) [
        | inr (message, e) ↦ rw (e, sub_task_loop) tt
        | inl ok ↦ elim (result-cases r.result) [
          | inl (hash, e) ↦
              let (next, lift) = go_on index st sts s hash h e in
              rw (ok, e, sub_task_loop)
                (after-OnFinished (success_result st r.retry_count hash)
                  (P (index + 1) sts r.run_state) _
                  (sub_task_loop max_retry w (index + 1) sts r.run_state) lift
                  (sub_task_loop_inv (index + 1) sts r.run_state next))
          | inr (reason, e) ↦ rw (ok, e, sub_task_loop) (stop index st sts s reason h e)
        ]
      ]

pub execute_task_inv {κ} :
    (P : Finished → Type κ) (max_retry : ℕ) (w : World) (task : EngineeringTask)
    (sts : List SubTask) (repo : Repo)
    → OnFinished P (sub_task_loop max_retry w 0 sts (fresh_run repo))
    → OnFinished P (execute_task max_retry w task sts repo)
unfolding execute_task
execute_task_inv P max_retry w task sts repo h = elim (Bool-cases (is_empty_text task.id)) [
  | inl no_id ↦ rw no_id tt
  | inr id ↦ elim (Bool-cases (is_blank task.description)) [
    | inl no_text ↦ rw (id, no_text) tt
    | inr text ↦ rw (id, text) h
  ]
]
