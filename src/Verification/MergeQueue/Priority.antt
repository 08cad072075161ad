-- ===== src/Verification/MergeQueue/Priority.antt =====
-- The order in which the merge queue serves its candidates.
use local_first_se_platform.Base.{
  or_else, ℕ, ◌≤◌, ◌<◌, String, ◌≡◌, refl, sym, ap, ◌∙◌, ◌⊎◌, inl, inr, false, Option, some, List,
  [], ◌∷◌, ◌++◌, arith, ltb, leb, nat_eq, if◌then◌else◌, Bool-cases, All,
}
use mathlib.Core.List.{append_assoc, append-nil}
use local_first_se_platform.Verification.MergeQueue.{
  MergeCandidate, queued, insert_by_priority, sort_onto, enqueue, dequeue,
}

abbrev AllAtMost : ℕ → List MergeCandidate → Type 0
AllAtMost n [] = Unit
AllAtMost n (c ∷ cs) = (c.priority ≤ n) × AllAtMost n cs

-- Higher priorities stand first.
abbrev pub IsByPriority : List MergeCandidate → Type 0
IsByPriority [] = Unit
IsByPriority (c ∷ cs) = AllAtMost c.priority cs × IsByPriority cs

AllAtMost-le : (m n : ℕ) (cs : List MergeCandidate) → m ≤ n → AllAtMost m cs → AllAtMost n cs
AllAtMost-le m n [] le h = tt
AllAtMost-le m n (c ∷ cs) le (here, later) = (omega arith, AllAtMost-le m n cs le later)

insert-AllAtMost :
    (n : ℕ) (c : MergeCandidate) (cs : List MergeCandidate)
    → c.priority ≤ n
    → AllAtMost n cs
    → AllAtMost n (insert_by_priority c cs)
unfolding insert_by_priority
insert-AllAtMost n c [] le h = (le, tt)
insert-AllAtMost n c (d ∷ ds) le (here, later) = elim (Bool-cases (ltb d.priority c.priority)) [
  | inl e ↦ rw (e, insert_by_priority) (le, (here, later))
  | inr e ↦ rw (e, insert_by_priority) (here, insert-AllAtMost n c ds le later)
]

insert-IsByPriority :
    (c : MergeCandidate) (cs : List MergeCandidate)
    → IsByPriority cs
    → IsByPriority (insert_by_priority c cs)
unfolding insert_by_priority
insert-IsByPriority c [] h = (tt, tt)
insert-IsByPriority c (d ∷ ds) (below, later) = elim (Bool-cases (ltb d.priority c.priority)) [
  | inl e ↦
      let le : d.priority ≤ c.priority = ground arith in
      rw (e, insert_by_priority)
        ((le, AllAtMost-le d.priority c.priority ds le below), (below, later))
  | inr e ↦
      let le : c.priority ≤ d.priority = ground arith in
      rw (e, insert_by_priority)
        (insert-AllAtMost d.priority c ds le below, insert-IsByPriority c ds later)
]

sort_onto-IsByPriority :
    (sorted cs : List MergeCandidate) → IsByPriority sorted → IsByPriority (sort_onto sorted cs)
unfolding sort_onto
sort_onto-IsByPriority sorted [] h = h
sort_onto-IsByPriority sorted (c ∷ cs) h =
    sort_onto-IsByPriority (insert_by_priority c sorted) cs (insert-IsByPriority c sorted h)

-- The candidates of one priority, in the order of the queue.
unfoldable pub of_priority : ℕ → List MergeCandidate → List MergeCandidate
of_priority n [] = []
of_priority n (c ∷ cs) = if nat_eq c.priority n then c ∷ of_priority n cs else of_priority n cs

of_priority-none :
    (n m : ℕ) (cs : List MergeCandidate) → m < n → AllAtMost m cs → of_priority n cs ≡ []
unfolding of_priority
of_priority-none n m [] lt h = refl
of_priority-none n m (c ∷ cs) lt (here, later) = ground (arith, of_priority-none n m cs lt later)

of_priority-append :
    (n : ℕ) (xs ys : List MergeCandidate)
    → of_priority n (xs ++ ys) ≡ of_priority n xs ++ of_priority n ys
unfolding of_priority
of_priority-append n [] ys = refl
of_priority-append n (x ∷ xs) ys = ground (arith, of_priority-append n xs ys)

below_all :
    (m : ℕ) (cs : List MergeCandidate) (n : ℕ) → AllAtMost m cs → (n ≤ m) ⊎ (of_priority n cs ≡ [])
below_all m cs n h = elim (Bool-cases (leb n m)) [
  | inl e ↦ inl (ground arith)
  | inr e ↦ inr (of_priority-none n m cs (ground arith) h)
]

in_front :
    (n : ℕ) (c d : MergeCandidate) (ds : List MergeCandidate)
    → d.priority < c.priority
    → AllAtMost d.priority ds
    → of_priority n (c ∷ d ∷ ds) ≡ of_priority n (d ∷ ds ++ c ∷ [])
unfolding of_priority
in_front n c d ds lt below = elim (Bool-cases (nat_eq c.priority n)) [
  | inl e ↦
      let empty : of_priority n ds ≡ [] = of_priority-none n d.priority ds (ground arith) below in
      let differs : nat_eq d.priority n ≡ false = ground arith in
      rw (e, differs, empty, of_priority-append n ds (c ∷ []), of_priority) (rw (e, empty) refl)
  | inr e ↦ rw (of_priority-append n ds (c ∷ [])) (rw e (rw (append-nil (of_priority n ds)) refl))
]

of_priority-insert :
    (n : ℕ) (c : MergeCandidate) (cs : List MergeCandidate)
    → IsByPriority cs
    → of_priority n (insert_by_priority c cs) ≡ of_priority n (cs ++ c ∷ [])
unfolding of_priority insert_by_priority
of_priority-insert n c [] h = refl
of_priority-insert n c (d ∷ ds) (below, later) = elim (Bool-cases (ltb d.priority c.priority)) [
  | inl e ↦ rw (e, insert_by_priority) (in_front n c d ds (ground arith) below)
  | inr e ↦ rw (e, insert_by_priority) (ground (arith, of_priority-insert n c ds later))
]

of_priority-sort_onto :
    (n : ℕ) (sorted cs : List MergeCandidate)
    → IsByPriority sorted
    → of_priority n (sort_onto sorted cs) ≡ of_priority n (sorted ++ cs)
unfolding sort_onto
of_priority-sort_onto n sorted [] h = ap (of_priority n) (sym (append-nil sorted))
of_priority-sort_onto n sorted (c ∷ cs) h =
    of_priority-sort_onto n (insert_by_priority c sorted) cs (insert-IsByPriority c sorted h)
    ∙ of_priority-append n (insert_by_priority c sorted) cs
    ∙ ap (λ xs. xs ++ of_priority n cs) (of_priority-insert n c sorted h)
    ∙ sym (of_priority-append n (sorted ++ c ∷ []) cs)
    ∙ ap (of_priority n) (append_assoc sorted (c ∷ []) cs)

served :
    (d c : MergeCandidate) (ds : List MergeCandidate)
    → AllAtMost d.priority ds
    → d.priority ≡ c.priority
    → All (λ (x : MergeCandidate). x.priority ≤ c.priority) ds
served d c [] h e = tt
served d c (x ∷ xs) (here, later) e = (omega arith, served d c xs later e)

-- Enqueuing leaves the queue in the order of priorities, and first come first served among the
-- candidates of one priority: they stand in the queue's old order, with the new one last.
pub enqueue_is_stable :
    (task_id worktree_id : String) (priority : Option ℕ) (now : ℕ) (queue : List MergeCandidate)
    (n : ℕ)
    → let new : MergeCandidate = record {
      task_id = task_id;
      worktree_id = worktree_id;
      priority = or_else priority 1;
      enqueued_at = now;
      status = queued;
    } in
      let after = enqueue task_id worktree_id priority now queue in
      IsByPriority after × (of_priority n after ≡ of_priority n (queue ++ new ∷ []))
unfolding enqueue
enqueue_is_stable task_id worktree_id priority now queue n =
    let all =
      queue
      ++ record {
        task_id = task_id;
        worktree_id = worktree_id;
        priority = or_else priority 1;
        enqueued_at = now;
        status = queued;
      }
        ∷ [] in
    (sort_onto-IsByPriority [] all tt, of_priority-sort_onto n [] all tt)

-- From a queue in the order of priorities a candidate of the highest priority is served, and the
-- rest of the queue stays in that order.
pub dequeue_serves_highest :
    (queue : List MergeCandidate) (c : MergeCandidate)
    → IsByPriority queue
    → (dequeue queue).0 ≡ some c
    → All (λ (d : MergeCandidate). d.priority ≤ c.priority) (dequeue queue).1
      × IsByPriority (dequeue queue).1
unfolding dequeue
dequeue_serves_highest [] c h e = cc
dequeue_serves_highest (d ∷ ds) c (below, later) e = (served d c ds below cc, later)
