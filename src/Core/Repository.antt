-- ===== src/Core/Repository.antt =====
-- src/core/application/services/git_manager.ts. The working tree, the index and the last commit are
-- functions from a path to the content there; files that Git ignores are left out. `git` itself is
-- not in the repository: each command either has its documented effect and exits with 0, or changes
-- nothing.
use local_first_se_platform.Base.{
  String, ◌≡◌, Bool, true, false, not, ◌&&◌, Option, none, some, arith, if◌then◌else◌,
}
use local_first_se_platform.Core.Commands.{
  CommandRun, no_handle, ran, is_zero_exit, reports_success,
}

abbrev pub Files : Type 0
Files = String → Option String

pub record Repo : Type 0 where
  pub work : Files
  pub index : Files
  pub head : Files

-- `runGit` tells 0 also of a command that was not started; only a real 0 has an effect.
abbrev pub has_effect : CommandRun → Bool
has_effect no_handle = false
has_effect (ran exit) = is_zero_exit exit

-- `git add -A`
unfoldable pub git_add : CommandRun → Repo → Repo
git_add r repo = record repo { index = if has_effect r then repo.work else repo.index }

-- `git commit -m message --allow-empty`
unfoldable pub git_commit : CommandRun → Repo → Repo
git_commit r repo = record repo { head = if has_effect r then repo.index else repo.head }

abbrev pub reset_path : Option String → Option String → Option String → Option String
reset_path (some committed) staged current = some committed
reset_path none (some staged) current = none
reset_path none none current = current

-- `git reset --hard HEAD`: files that were staged and are not committed are removed.
unfoldable pub git_reset : CommandRun → Repo → Repo
git_reset r repo = record repo {
  work =
      if has_effect r
      then (λ p. reset_path (repo.head p) (repo.index p) (repo.work p))
      else repo.work;
  index = if has_effect r then repo.head else repo.index;
}

abbrev pub clean_path : Option String → Option String → Option String
clean_path none current = none
clean_path (some staged) current = current

-- `git clean -fd`: files that are not tracked are removed.
unfoldable pub git_clean : CommandRun → Repo → Repo
git_clean r repo = record repo {
  work = if has_effect r then (λ p. clean_path (repo.index p) (repo.work p)) else repo.work;
}

-- The commands of one `commit`. An exception of the runtime counts as a command without an exit
-- code: neither has an effect, and the callers of these methods log both alike.
pub record CommitRuns : Type 0 where
  pub add : CommandRun
  pub commit : CommandRun
  pub rev_parse : CommandRun
  pub hash : String

pub record CommitResult : Type 0 where
  pub success : Bool
  pub commit_hash : Option String

-- `commit`. The list of files that it is given is not used.
unfoldable pub commit : CommitRuns → Repo → Repo × CommitResult
unfolding git_add git_commit
commit r repo =
    if not (reports_success r.add)
    then (git_add r.add repo, record { success = false; commit_hash = none })
    else if not (reports_success r.commit)
    then (git_commit r.commit (git_add r.add repo), record { success = false; commit_hash = none })
    else (
      git_commit r.commit (git_add r.add repo),
      record {
        success = true;
        commit_hash = if reports_success r.rev_parse then some r.hash else none;
      },
    )

pub record RollbackRuns : Type 0 where
  pub reset : CommandRun
  pub clean : CommandRun

-- `rollback`, and `rollbackToCheckpoint`, which does the same: neither the files nor the id of a
-- checkpoint that they are given is used.
unfoldable pub rollback : RollbackRuns → Repo → Repo × Bool
unfolding git_reset git_clean
rollback r repo =
    (git_clean r.clean (git_reset r.reset repo), reports_success r.reset && reports_success r.clean)

unfoldable pub rollback_to_checkpoint : String → RollbackRuns → Repo → Repo × Bool
unfolding rollback
rollback_to_checkpoint checkpoint_id r repo = rollback r repo

-- `createCheckpoint`: whether the commit succeeded is not looked at.
unfoldable pub create_checkpoint : String → CommitRuns → Repo → Repo × String
unfolding commit
create_checkpoint checkpoint_id r repo = ((commit r repo).0, checkpoint_id)

-- The two trees hold the same files.
abbrev pub IsClean : Repo → Type 0
IsClean repo = (p : String) → repo.work p ≡ repo.head p

abbrev pub Works : CommitRuns → Type 0
Works r = (has_effect r.add ≡ true) × (has_effect r.commit ≡ true)

abbrev pub Restores : RollbackRuns → Type 0
Restores r = (has_effect r.reset ≡ true) × (has_effect r.clean ≡ true)

reports_effect : (r : CommandRun) → has_effect r ≡ true → reports_success r ≡ true
reports_effect no_handle h = cc
reports_effect (ran exit) h = h

-- A commit that works takes the whole working tree.
pub commit-trees :
    (r : CommitRuns) (repo : Repo)
    → Works r
    → ((commit r repo).0.head ≡ repo.work) × ((commit r repo).0.work ≡ repo.work)
unfolding commit git_add git_commit
commit-trees r repo (added, committed) =
    ground (arith, reports_effect r.add added, reports_effect r.commit committed)

-- A rollback that works brings the last commit back, whatever was written or staged since.
pub rollback-trees :
    (r : RollbackRuns) (repo : Repo) (p : String)
    → Restores r
    → ((rollback r repo).0.work p ≡ repo.head p) × ((rollback r repo).0.head ≡ repo.head)
unfolding rollback git_reset git_clean
rollback-trees r repo p (reset_ok, clean_ok) = ground arith
