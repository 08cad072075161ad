-- ===== src/Core/TaskRun/Losses.antt =====
-- What a commit that fails costs.
use local_first_se_platform.Base.{
  ℕ, suc, String, ◌≡◌, refl, ap, ◌∙◌, subst, ◌⊎◌, inl, inr, false, Option, List, [], ◌∷◌, arith,
  Bool-cases,
}
use local_first_se_platform.Core.Commands.{run}
use local_first_se_platform.Core.Repository.{
  Files, Repo, Restores, CommitRuns, has_effect, commit, git_add, git_commit, rollback-trees,
}
use local_first_se_platform.Core.Patches.{generate_patches, update}
use local_first_se_platform.Core.Round.{
  SubTask, Attempt, ProviderReply, crashes, replies, Failure, Run, checkpoint, add_new,
  verify_round, write_round, replied, round,
}
use local_first_se_platform.Core.TaskRun.{
  retry_loop, World, Finished, finished, roll_back, fresh_run, EngineeringTask, execute_task,
}
use local_first_se_platform.Core.TaskRun.Retries.{Leaves, Ends, retry_loop_inv}
use local_first_se_platform.Core.TaskRun.Loop.{OnFinished, sub_task_loop_inv, execute_task_inv}

abbrev HeadIs : Files → Run → Type 0
HeadIs h s = s.repo.head ≡ h

abbrev pub IsInert : CommitRuns → Type 0
IsInert runs = has_effect runs.commit ≡ false

checkpoint-inert :
    (runs : CommitRuns) (repo : Repo) → IsInert runs → (checkpoint runs repo).0.head ≡ repo.head
unfolding checkpoint commit git_add git_commit
checkpoint-inert runs repo no_effect = ground arith

module _ (h : Files) (st : SubTask) (a : Attempt) (inert : IsInert a.commit_runs) where
  verify_round-HeadIs :
      (s : Run)
      → HeadIs h s
      → Leaves (HeadIs h) (HeadIs h) (verify_round a s).0 (verify_round a s).1
  unfolding verify_round
  verify_round-HeadIs s t = elim (Bool-cases (run a.verification).success) [
    | inl ok ↦
        rw (ok, verify_round)
          (checkpoint-inert a.commit_runs (record s.repo { work = a.side_effects s.repo.work })
              inert
            ∙ t)
    | inr bad ↦ rw (bad, verify_round) t
  ]

  write_round-HeadIs :
      (s : Run)
      → HeadIs h s
      → Leaves (HeadIs h) (HeadIs h) (write_round st a s).0 (write_round st a s).1
  unfolding write_round
  write_round-HeadIs s t =
      let patch = generate_patches a.blocks (st.target_file ∷ []) in
      let u = update a.faults patch.patches s.repo.work in
      elim (Bool-cases patch.success) [
        | inr refused ↦ rw (refused, write_round) t
        | inl allowed ↦ elim (Bool-cases u.success) [
          | inr broken ↦ rw (allowed, broken, write_round) t
          | inl done ↦
              rw (allowed, done, write_round)
                (verify_round-HeadIs
                  (record s {
                    repo = record s.repo { work = u.files };
                    modified_files = add_new u.modified_files s.modified_files;
                    files_skipped = add_new u.files_skipped s.files_skipped;
                  })
                  t)
        ]
      ]

  replied-HeadIs :
      (r : ProviderReply) (s : Run)
      → HeadIs h s
      → Leaves (HeadIs h) (HeadIs h) (replied st a r s).0 (replied st a r s).1
  unfolding replied
  replied-HeadIs (crashes message) s t = t
  replied-HeadIs (replies ok output error) s t = elim (Bool-cases ok) [
    | inr bad ↦ rw bad t
    | inl good ↦ elim (Bool-cases a.is_valid) [
      | inr not_valid ↦ rw (good, not_valid) t
      | inl valid ↦ rw (good, valid) (write_round-HeadIs (record s { last_output = output }) t)
    ]
  ]

  round-HeadIs :
      (s : Run) → HeadIs h s → Leaves (HeadIs h) (HeadIs h) (round st a s).0 (round st a s).1
  unfolding round
  round-HeadIs s t = replied-HeadIs a.reply s t

-- No commit has an effect, and every rollback has.
pub record CommitsFail (w : World) : Type 0 where
  pub commits : (index n : ℕ) → IsInert (w.attempts index n).commit_runs
  pub rollbacks : (index : ℕ) → Restores (w.rollback_runs index)

same_end :
    (h : Files) (s : Run) (r : (Option String) ⊎ Failure)
    → Ends (HeadIs h) (HeadIs h) s r
    → HeadIs h s
same_end h s (inl hash) t = t
same_end h s (inr reason) t = t

abbrev Loses : Files → Finished → Type 0
Loses h f = f.succeeded ≡ false → (p : String) → f.run_state.repo.work p ≡ h p

module _ (w : World) (git : CommitsFail w) (max_retry : ℕ) (h : Files) where
  sub_task-HeadIs :
      (index : ℕ) (st : SubTask) (s : Run)
      → HeadIs h s
      → HeadIs h (retry_loop (suc max_retry) max_retry index st (w.attempts index) 0 s).run_state
  sub_task-HeadIs index st s t =
      let r = retry_loop (suc max_retry) max_retry index st (w.attempts index) 0 s in
      same_end h r.run_state r.result (
        retry_loop_inv (HeadIs h) (HeadIs h) st (w.attempts index) index max_retry (λ n u v. v)
          (λ n e u v. v) (λ n u v. round-HeadIs h st (w.attempts index n) (git.commits index n) u v)
          (suc max_retry) 0 s t)

  roll_back-HeadIs :
      (index : ℕ) (u : Run) (p : String)
      → HeadIs h u
      → (roll_back (w.rollback_runs index) u).repo.work p ≡ h p
  unfolding roll_back
  roll_back-HeadIs index u p t =
      ((rollback-trees (w.rollback_runs index) u.repo p (git.rollbacks index)).0
        ∙ ap (λ (g : Files). g p) t)

-- A commit that fails is ignored, and a later rollback then costs the sub-task its work: if no
-- commit has an effect and the rollbacks work, a run that ends in a failure leaves the working tree
-- as the last commit before the run, also for the sub-tasks that it reports as successes.
pub failed_commits_lose_work :
    (max_retry : ℕ) (w : World) (task : EngineeringTask) (sts : List SubTask) (repo : Repo)
    (f : Finished) (p : String)
    → CommitsFail w
    → execute_task max_retry w task sts repo ≡ finished f
    → f.succeeded ≡ false
    → f.run_state.repo.work p ≡ repo.head p
failed_commits_lose_work max_retry w task sts repo f p git e failed_run =
    let all = execute_task_inv (Loses repo.head) max_retry w task sts repo (
      sub_task_loop_inv (λ (index : ℕ). HeadIs repo.head)
        (λ (index : ℕ) (sts : List SubTask) (s : Run). Loses repo.head) max_retry w
        (λ index s t ok. cc)
        (λ index st sts s hash t ok.
          (sub_task-HeadIs w git max_retry repo.head index st s t, λ f k. k))
        (λ index st sts s reason t ok bad p.
          roll_back-HeadIs w git max_retry repo.head index
            (retry_loop (suc max_retry) max_retry index st (w.attempts index) 0 s).run_state p
            (sub_task-HeadIs w git max_retry repo.head index st s t))
        0 sts (fresh_run repo) refl) in
    let lost : Loses repo.head f = subst (OnFinished (Loses repo.head)) e all in lost failed_run p
