-- ===== src/Verification/MergeQueue/Tests.antt =====
-- A queue of two candidates.
use local_first_se_platform.Base.{ℕ, String, ◌≡◌, refl, some, List, [], ◌∷◌, map}
use local_first_se_platform.Verification.MergeQueue.{
  MergeCandidate, queued, enqueue, sort_onto, insert_by_priority,
}

abbrev candidate : String → ℕ → MergeCandidate
candidate task_id priority = record {
  task_id = task_id;
  worktree_id = task_id;
  priority = priority;
  enqueued_at = 0;
  status = queued;
}

abbrev two_candidates : List MergeCandidate
two_candidates = candidate "a" 3 ∷ candidate "b" 1 ∷ []

between :
    map (λ (c : MergeCandidate). c.task_id) (enqueue "c" "c" (some 2) 0 two_candidates)
    ≡ "a" ∷ "c" ∷ "b" ∷ []
unfolding enqueue sort_onto insert_by_priority
between = refl
