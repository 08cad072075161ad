-- ===== src/Core/TaskRun/Recovery.antt =====
-- What a run leaves in the repository.
use local_first_se_platform.Base.{
  ℕ, suc, String, ◌≡◌, refl, sym, ap, ◌∙◌, subst, ◌≢◌, inl, inr, false, Option, some, List, [], ◌∷◌,
  arith, if◌then◌else◌, Bool-cases, contains,
}
use local_first_se_platform.Core.Commands.{run}
use local_first_se_platform.Core.Repository.{
  Files, Repo, IsClean, Works, Restores, CommitRuns, commit-trees, rollback-trees,
}
use local_first_se_platform.Core.Patches.{
  generate_patches, update, generate_patches-Targets, update-elsewhere,
}
use local_first_se_platform.Core.Round.{
  SubTask, add_new, Attempt, ProviderReply, crashes, replies, Failure, Run, checkpoint,
  verify_round, write_round, replied, round,
}
use local_first_se_platform.Core.TaskRun.{
  success_result, failed_result, skip_all, failed, success, retry_loop, World, Finished, finished,
  roll_back, fresh_run, EngineeringTask, execute_task, SubTaskResult, is_success,
}
use local_first_se_platform.Core.TaskRun.Retries.{Leaves, Ends, retry_loop_inv}
use local_first_se_platform.Core.TaskRun.Loop.{OnFinished, sub_task_loop_inv, execute_task_inv}

-- The commits and rollbacks of every round have their effect.
pub record GitWorks (w : World) : Type 0 where
  pub commits : (index n : ℕ) → Works (w.attempts index n).commit_runs
  pub rollbacks : (index : ℕ) → Restores (w.rollback_runs index)

-- The verification commands leave the working tree as it is.
abbrev pub IsReadOnly : World → Type 0
IsReadOnly w = (index n : ℕ) (files : Files) → (w.attempts index n).side_effects files ≡ files

-- `head` is `h` in all but the file `target`, and so is the working tree.
abbrev Touched : Files → String → Run → Type 0
Touched h target s = (p : String) → (s.repo.head p ≡ h p) × (p ≢ target → s.repo.work p ≡ h p)

abbrev Committed : Files → String → Run → Type 0
Committed h target s =
    (p : String) → (s.repo.work p ≡ s.repo.head p) × (p ≢ target → s.repo.head p ≡ h p)

checkpoint-trees :
    (runs : CommitRuns) (repo : Repo)
    → Works runs
    → ((checkpoint runs repo).0.head ≡ repo.work) × ((checkpoint runs repo).0.work ≡ repo.work)
unfolding checkpoint
checkpoint-trees runs repo works = ground (arith, commit-trees runs repo works)

module _ (h : Files) (st : SubTask) (a : Attempt) (works : Works a.commit_runs)
    (read_only : (files : Files) → a.side_effects files ≡ files) where
  verify_round-Leaves :
      (s : Run)
      → Touched h st.target_file s
      → Leaves
          (Touched h st.target_file)
          (Committed h st.target_file)
          (verify_round a s).0
          (verify_round a s).1
  unfolding verify_round
  verify_round-Leaves s t =
      let same = read_only s.repo.work in
      let (head, work) =
        checkpoint-trees a.commit_runs (record s.repo { work = a.side_effects s.repo.work })
          works in
      elim (Bool-cases (run a.verification).success) [
        | inl ok ↦
            rw (ok, verify_round)
              (λ p. (
                ap (λ (g : Files). g p) (work ∙ sym head),
                λ other. ap (λ (g : Files). g p) (head ∙ same) ∙ (t p).1 other,
              ))
        | inr bad ↦
            rw (bad, verify_round)
              (λ p. ((t p).0, λ other. ap (λ (g : Files). g p) same ∙ (t p).1 other))
      ]

  write_round-Leaves :
      (s : Run)
      → Touched h st.target_file s
      → Leaves
          (Touched h st.target_file)
          (Committed h st.target_file)
          (write_round st a s).0
          (write_round st a s).1
  unfolding write_round
  write_round-Leaves s t =
      let patch = generate_patches a.blocks (st.target_file ∷ []) in
      let u = update a.faults patch.patches s.repo.work in
      let written : (p : String) → p ≢ st.target_file → u.files p ≡ h p = λ p other.
        update-elsewhere st.target_file a.faults patch.patches s.repo.work p
          (generate_patches-Targets st.target_file a.blocks) other
        ∙ (t p).1 other in
      elim (Bool-cases patch.success) [
        | inr refused ↦ rw (refused, write_round) t
        | inl allowed ↦ elim (Bool-cases u.success) [
          | inr broken ↦ rw (allowed, broken, write_round) (λ p. ((t p).0, written p))
          | inl done ↦
              rw (allowed, done, write_round)
                (verify_round-Leaves
                  (record s {
                    repo = record s.repo { work = u.files };
                    modified_files = add_new u.modified_files s.modified_files;
                    files_skipped = add_new u.files_skipped s.files_skipped;
                  })
                  (λ p. ((t p).0, written p)))
        ]
      ]

  replied-Leaves :
      (r : ProviderReply) (s : Run)
      → Touched h st.target_file s
      → Leaves
          (Touched h st.target_file)
          (Committed h st.target_file)
          (replied st a r s).0
          (replied st a r s).1
  unfolding replied
  replied-Leaves (crashes message) s t = t
  replied-Leaves (replies ok output error) s t = elim (Bool-cases ok) [
    | inr bad ↦ rw bad t
    | inl good ↦ elim (Bool-cases a.is_valid) [
      | inr not_valid ↦ rw (good, not_valid) t
      | inl valid ↦ rw (good, valid) (write_round-Leaves (record s { last_output = output }) t)
    ]
  ]

  round-Leaves :
      (s : Run)
      → Touched h st.target_file s
      → Leaves
          (Touched h st.target_file)
          (Committed h st.target_file)
          (round st a s).0
          (round st a s).1
  unfolding round
  round-Leaves s t = replied-Leaves a.reply s t

-- The files of the sub-tasks that a run reports as successes.
unfoldable pub delivered : List SubTaskResult → List String
delivered [] = []
delivered (r ∷ rs) = if is_success r.status then r.target_file ∷ delivered rs else delivered rs

-- The run leaves the commit and the working tree equal, and the same as at `s` but for what it
-- delivered.
pub record Recovers (s : Run) (f : Finished) : Type 0 where
  pub clean : IsClean f.run_state.repo
  pub isolated :
      (p : String)
      → contains p (delivered f.results) ≡ false
      → f.run_state.repo.head p ≡ s.repo.head p

module _ (w : World) (git : GitWorks w) (read_only : IsReadOnly w) (max_retry : ℕ) where
  sub_task-Ends :
      (index : ℕ) (st : SubTask) (s : Run)
      → IsClean s.repo
      → let r = retry_loop (suc max_retry) max_retry index st (w.attempts index) 0 s in
        Ends
          (Touched s.repo.head st.target_file)
          (Committed s.repo.head st.target_file)
          r.run_state
          r.result
  sub_task-Ends index st s clean =
      retry_loop_inv (Touched s.repo.head st.target_file) (Committed s.repo.head st.target_file) st
        (w.attempts index) index max_retry (λ n u t. t) (λ n e u t. t)
        (λ n u t.
          round-Leaves s.repo.head st (w.attempts index n) (git.commits index n) (read_only index n)
            u t)
        (suc max_retry) 0 s (λ p. (refl, λ other. clean p))

  roll_back-clean :
      (index : ℕ) (u : Run) (p : String)
      → let u' = roll_back (w.rollback_runs index) u in
        (u'.repo.work p ≡ u.repo.head p) × (u'.repo.head ≡ u.repo.head)
  unfolding roll_back
  roll_back-clean index u p = rollback-trees (w.rollback_runs index) u.repo p (git.rollbacks index)

  Recovers-stop :
      (index : ℕ) (st : SubTask) (sts : List SubTask) (s : Run) (reason : Failure)
      → IsClean s.repo
      → let r = retry_loop (suc max_retry) max_retry index st (w.attempts index) 0 s in
        r.result ≡ inr reason
        → Recovers s (record {
          run_state = roll_back (w.rollback_runs index) r.run_state;
          statuses = failed ∷ skip_all sts;
          results = failed_result st r.retry_count reason ∷ [];
          succeeded = false;
          last_error = some reason;
        })
  unfolding delivered
  Recovers-stop index st sts s reason clean e =
      let r = retry_loop (suc max_retry) max_retry index st (w.attempts index) 0 s in
      let touched : Touched s.repo.head st.target_file r.run_state =
        rw e at (sub_task-Ends index st s clean) in
      let back = roll_back-clean index r.run_state in
      record {
        clean = λ p. (back p).0 ∙ sym (ap (λ (g : Files). g p) (back p).1);
        isolated = λ p none_delivered. ap (λ (g : Files). g p) (back p).1 ∙ (touched p).0;
      }

  Recovers-onwards :
      (index : ℕ) (st : SubTask) (s : Run) (hash : Option String)
      → IsClean s.repo
      → let r = retry_loop (suc max_retry) max_retry index st (w.attempts index) 0 s in
        r.result ≡ inl hash
        → IsClean r.run_state.repo
          × ((f : Finished)
              → Recovers r.run_state f
              → Recovers s (record f {
                statuses = success ∷ f.statuses;
                results = success_result st r.retry_count hash ∷ f.results;
              }))
  unfolding delivered
  Recovers-onwards index st s hash clean e =
      let r = retry_loop (suc max_retry) max_retry index st (w.attempts index) 0 s in
      let done : Committed s.repo.head st.target_file r.run_state =
        rw e at (sub_task-Ends index st s clean) in
      (
        λ p. (done p).0,
        λ f h. record {
          clean = h.clean;
          isolated = λ p none_delivered. h.isolated p (ground arith) ∙ (done p).1 (ground arith);
        },
      )

-- If Git's commands work and the verification commands change no file, a run that is started on a
-- clean working tree and comes to its end, successfully or not, leaves a clean working tree; and a
-- file differs from the commit that the run started on only if it is the target of a sub-task that
-- the run reports as a success.
pub execute_task_recovers :
    (max_retry : ℕ) (w : World) (task : EngineeringTask) (sts : List SubTask) (repo : Repo)
    (f : Finished)
    → GitWorks w
    → IsReadOnly w
    → IsClean repo
    → execute_task max_retry w task sts repo ≡ finished f
    → IsClean f.run_state.repo
      × ((p : String)
          → contains p (delivered f.results) ≡ false
          → f.run_state.repo.work p ≡ repo.head p)
execute_task_recovers max_retry w task sts repo f git read_only clean e =
    let all = execute_task_inv (Recovers (fresh_run repo)) max_retry w task sts repo (
      sub_task_loop_inv (λ (index : ℕ) (s : Run). IsClean s.repo)
        (λ (index : ℕ) (sts : List SubTask). Recovers) max_retry w
        (λ index s h. record { clean = h; isolated = λ p none_delivered. refl })
        (λ index st sts s hash. Recovers-onwards w git read_only max_retry index st s hash)
        (λ index st sts s reason. Recovers-stop w git read_only max_retry index st sts s reason) 0
        sts (fresh_run repo) clean) in
    let r : Recovers (fresh_run repo) f = subst (OnFinished (Recovers (fresh_run repo))) e all in
    (r.clean, λ p none_delivered. r.clean p ∙ r.isolated p none_delivered)
