-- ===== src/Core/Round.antt =====
-- One round of the retry loop of `executeTask` in
-- src/core/application/services/task_execution_service.ts: provider, validation, patches, workspace,
-- verification and checkpoint.
use local_first_se_platform.Base.{
  ℕ, String, Bool, not, Option, List, [], ◌∷◌, ◌++◌, if◌then◌else◌, contains,
}
use local_first_se_platform.Core.Commands.{CommandRun, run}
use local_first_se_platform.Core.Repository.{Files, Repo, CommitRuns, commit}
use local_first_se_platform.Core.Patches.{ParsedBlock, PatchError, Faults, generate_patches, update}

pub record SubTask : Type 0 where
  pub id : String
  pub target_file : String
  pub objective : String

-- The provider throws, or answers.
pub data ProviderReply : Type 0 where
  crashes : String → ProviderReply
  replies : Bool → String → Option String → ProviderReply

-- One round of a sub-task: what each part of the outside answers.
pub record Attempt : Type 0 where
  pub reply : ProviderReply
  pub blocks : List ParsedBlock
  pub is_valid : Bool
  pub validation_errors : List String
  pub faults : Faults
  -- The verification commands, and what they do to the working tree.
  pub verification : List (String × CommandRun)
  pub side_effects : Files → Files
  pub commit_runs : CommitRuns

-- Why a round failed, in place of the message.
pub data Failure : Type 0 where
  never_tried : Failure
  provider_crashed : String → Failure
  provider_failed : Option String → Failure
  not_valid : List String → Failure
  patch_refused : Option PatchError → Failure
  update_failed : Failure
  verification_failed : Failure

pub record RetryNote : Type 0 where
  pub sub_task : ℕ
  pub attempt : ℕ
  pub reason : Failure

-- What the run carries from round to round.
pub record Run : Type 0 where
  pub repo : Repo
  pub modified_files : List String
  pub files_skipped : List String
  pub total_retry_count : ℕ
  pub retry_history : List RetryNote
  pub last_output : String
  pub last_build_passed : Bool
  pub last_tests_passed : Bool

pub data Verdict : Type 0 where
  passed : Option String → Verdict
  retryable : Failure → Verdict
  final : Failure → Verdict

-- `files.forEach((f) => set.add(f))`
unfoldable pub add_new : List String → List String → List String
add_new [] known = known
add_new (f ∷ files) known = add_new files (if contains f known then known else known ++ f ∷ [])

-- The commit of a verified sub-task. An exception is only logged, and a failed commit not even that.
unfoldable pub checkpoint : CommitRuns → Repo → Repo × Option String
unfolding commit
checkpoint runs repo = let (repo', result) = commit runs repo in (repo', result.commit_hash)

unfoldable pub verify_round : Attempt → Run → Run × Verdict
unfolding run checkpoint
verify_round a s =
    let changed = record s.repo { work = a.side_effects s.repo.work } in
    let v = run a.verification in
    let s' = record s {
      repo = changed;
      last_build_passed = v.build_passed;
      last_tests_passed = v.tests_passed;
    } in
    if not v.success
    then (s', retryable verification_failed)
    else let (committed, hash) = checkpoint a.commit_runs changed in
      (record s' { repo = committed }, passed hash)

unfoldable pub write_round : SubTask → Attempt → Run → Run × Verdict
unfolding generate_patches update verify_round
write_round st a s =
    let patch = generate_patches a.blocks (st.target_file ∷ []) in
    let u = update a.faults patch.patches s.repo.work in
    let s' = record s {
      repo = record s.repo { work = u.files };
      modified_files = add_new u.modified_files s.modified_files;
      files_skipped = add_new u.files_skipped s.files_skipped;
    } in
    if not patch.success
    then (s, retryable (patch_refused patch.error))
    else if not u.success
    then (s', retryable update_failed)
    else verify_round a s'

unfoldable pub replied : SubTask → Attempt → ProviderReply → Run → Run × Verdict
unfolding write_round
replied st a (crashes message) s = (s, final (provider_crashed message))
replied st a (replies ok output error) s =
    let s' = record s { last_output = output } in
    if not ok
    then (s', retryable (provider_failed error))
    else if not a.is_valid
    then (s', retryable (not_valid a.validation_errors))
    else write_round st a s'

-- One round: provider, validation, patches, workspace, verification, checkpoint.
unfoldable pub round : SubTask → Attempt → Run → Run × Verdict
unfolding replied
round st a s = replied st a a.reply s
