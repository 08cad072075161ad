-- ===== src/Verification/MergeQueue.antt =====
-- src/v2/application/verification/merge_queue.ts.
mod Tests
pub mod Priority
use local_first_se_platform.Base.{
  or_else, ℕ, String, Bool, true, false, Option, none, some, List, [], ◌∷◌, ◌++◌, ltb,
  if◌then◌else◌, ◌==◌,
}

pub data CandidateStatus : Type 0 where
  queued inspecting : CandidateStatus

-- `enqueued_at` is the clock, of which the candidate's id is made.
pub record MergeCandidate : Type 0 where
  pub task_id : String
  pub worktree_id : String
  pub priority : ℕ
  pub enqueued_at : ℕ
  pub status : CandidateStatus

-- The last element goes where JavaScript's stable `sort((a, b) => b.priority - a.priority)` puts it
-- in a queue that is sorted but for it: behind the elements of at least its priority.
unfoldable pub insert_by_priority : MergeCandidate → List MergeCandidate → List MergeCandidate
insert_by_priority c [] = c ∷ []
insert_by_priority c (d ∷ ds) =
    if ltb d.priority c.priority then c ∷ d ∷ ds else d ∷ insert_by_priority c ds

-- The stable sort, by insertion from the left.
unfoldable pub sort_onto : List MergeCandidate → List MergeCandidate → List MergeCandidate
unfolding insert_by_priority
sort_onto sorted [] = sorted
sort_onto sorted (c ∷ cs) = sort_onto (insert_by_priority c sorted) cs

unfoldable pub enqueue : String → String → Option ℕ → ℕ → List MergeCandidate → List MergeCandidate
unfolding sort_onto
enqueue task_id worktree_id priority now queue = sort_onto [] (
    queue
    ++ record {
      task_id = task_id;
      worktree_id = worktree_id;
      priority = or_else priority 1;
      enqueued_at = now;
      status = queued;
    }
      ∷ [])

unfoldable pub dequeue : List MergeCandidate → Option MergeCandidate × List MergeCandidate
dequeue [] = (none, [])
dequeue (c ∷ cs) = (some (record c { status = inspecting }), cs)

-- The first candidate of the task is taken out.
unfoldable pub cancel : String → List MergeCandidate → List MergeCandidate × Bool
cancel task_id [] = ([], false)
cancel task_id (c ∷ cs) =
    let (rest, found) = cancel task_id cs in
    if c.task_id == task_id then (cs, true) else (c ∷ rest, found)
