-- ===== src/Missions/Graph/Kahn/Fuel.antt =====
-- The counters of the two loops: each round takes an id off the queue for good.
use local_first_se_platform.Base.{
  ℕ, zero, suc, ◌+◌, ◌≤◌, String, ◌≡◌, refl, ap, ◌∙◌, ◌⊎◌, inl, inr, Bool, true, false, not, some,
  List, [], ◌∷◌, ◌++◌, arith, nat_eq, if◌then◌else◌, Bool-cases, length, length-append, Dict,
  lookup, insert,
}
use local_first_se_platform.Base.{one_if, ℤ, pos, pred_ℤ, is_zero, is_pos}
use local_first_se_platform.Base.{or_else}
use local_first_se_platform.Missions.Graph.{
  neighbors, copy_degrees, zero_ids, relax, drain, relax_batch, level, TaskGraph, detect_cycle,
  batches, cyclic_error, get_execution_batches, ExecutionBatch,
}

unfoldable pub positives : Dict ℤ → ℕ
positives [] = 0
positives ((k, z) ∷ m) = one_if (is_pos z) + positives m

positives-insert :
    (k : String) (z : ℤ) (m : Dict ℤ)
    → positives (insert k z m) + one_if (is_pos (or_else (lookup k m) (pos 0)))
      ≡ positives m + one_if (is_pos z)
unfolding positives insert lookup one_if
positives-insert k z [] = ground arith
positives-insert k z ((j, w) ∷ m) = ground (arith, positives-insert k z m)

one_if-pred : (z : ℤ) → one_if (is_pos (pred_ℤ z)) + one_if (is_zero (pred_ℤ z)) ≡ one_if (is_pos z)
unfolding one_if
one_if-pred (pos zero) = refl
one_if-pred (pos (suc zero)) = refl
one_if-pred (pos (suc (suc n))) = refl
one_if-pred (ℤ.negsuc n) = refl

length-push :
    (b : Bool) (xs : List String) (x : String)
    → length (if b then xs ++ x ∷ [] else xs) ≡ length xs + one_if b
unfolding one_if
length-push true xs x = length-append xs (x ∷ [])
length-push false xs x = omega arith

-- Relaxing the neighbors of a task moves ids from the positive counters to the queue.
pub relax_measure :
    (ns : List String) (temp : Dict ℤ) (queue : List String)
    → positives (relax ns temp queue).0 + length (relax ns temp queue).1
      ≡ positives temp + length queue
unfolding relax
relax_measure [] temp queue = refl
relax_measure (n ∷ ns) temp queue =
    let z = or_else (lookup n temp) (pos 0) in
    omega (
      arith,
      relax_measure ns (insert n (pred_ℤ z) temp)
          (if is_zero (pred_ℤ z) then queue ++ n ∷ [] else queue),
      positives-insert n (pred_ℤ z) temp,
      one_if-pred z,
      length-push (is_zero (pred_ℤ z)) queue n,
    )

relax_batch_measure :
    (adjacency : Dict (List String)) (xs : List String) (temp : Dict ℤ) (next : List String)
    → positives (relax_batch adjacency xs temp next).0
        + length (relax_batch adjacency xs temp next).1
      ≡ positives temp + length next
unfolding relax_batch
relax_batch_measure adjacency [] temp next = refl
relax_batch_measure adjacency (x ∷ xs) temp next =
    let (temp', next') = relax (neighbors adjacency x) temp next in
    relax_batch_measure adjacency xs temp' next' ∙ relax_measure (neighbors adjacency x) temp next

drain_total :
    (adjacency : Dict (List String)) (fuel : ℕ) (temp : Dict ℤ) (queue : List String)
    (processed : ℕ)
    → positives temp + length queue ≤ fuel
    → (n : ℕ) × (drain adjacency fuel temp queue processed ≡ some n)
      × (n ≤ processed + positives temp + length queue)
unfolding drain
drain_total adjacency zero temp [] processed h = (processed, refl, omega arith)
drain_total adjacency (suc fuel) temp [] processed h = (processed, refl, omega arith)
drain_total adjacency zero temp (q ∷ qs) processed h = absurd (omega arith)
drain_total adjacency (suc fuel) temp (q ∷ qs) processed h =
    let (temp', queue) = relax (neighbors adjacency q) temp qs in
    let same = relax_measure (neighbors adjacency q) temp qs in
    let (n, e, bound) = drain_total adjacency fuel temp' queue (processed + 1) (omega arith) in
    (n, e, omega arith)

level_total :
    (adjacency : Dict (List String)) (fuel num : ℕ) (temp : Dict ℤ) (batch : List String)
    → positives temp + length batch ≤ fuel
    → (bs : List ExecutionBatch) × (level adjacency fuel num temp batch ≡ some bs)
unfolding level
level_total adjacency zero num temp [] h = ([], refl)
level_total adjacency (suc fuel) num temp [] h = ([], refl)
level_total adjacency zero num temp (x ∷ xs) h = absurd (omega arith)
level_total adjacency (suc fuel) num temp (x ∷ xs) h =
    let (temp', next) = relax_batch adjacency (x ∷ xs) temp [] in
    let same = relax_batch_measure adjacency (x ∷ xs) temp [] in
    let (bs, e) = level_total adjacency fuel (num + 1) temp' next (omega arith) in
    (record { batch_number = num; task_ids = x ∷ xs } ∷ bs, rw (e, level))

pub start_measure :
    (m : Dict ℕ) → positives (copy_degrees m) + length (zero_ids (copy_degrees m)) ≡ length m
unfolding positives copy_degrees zero_ids one_if
start_measure [] = refl
start_measure ((k, zero) ∷ m) = omega (arith, start_measure m)
start_measure ((k, suc n) ∷ m) = omega (arith, start_measure m)

-- `detectCycle` ends on every graph: the fuel that the model gives it is enough.
pub detect_cycle_total : (g : TaskGraph) → (c : Bool) × (detect_cycle g ≡ some c)
unfolding detect_cycle
detect_cycle_total g =
    let temp = copy_degrees g.in_degree in
    let same = start_measure g.in_degree in
    let (n, e, _) =
      drain_total g.adjacency_list (length g.in_degree) temp (zero_ids temp) 0 (omega arith) in
    (not (nat_eq n (length g.tasks)), rw (e, detect_cycle))

-- On every graph `getExecutionBatches` ends, and either it returns batches and `detectCycle`
-- answers false, or it throws and `detectCycle` answers true.
pub get_execution_batches_total :
    (g : TaskGraph)
    → ((bs : List ExecutionBatch) × (get_execution_batches g ≡ batches bs)
        × (detect_cycle g ≡ some false))
      ⊎ ((get_execution_batches g ≡ cyclic_error) × (detect_cycle g ≡ some true))
unfolding get_execution_batches
get_execution_batches_total g =
    let temp = copy_degrees g.in_degree in
    let same = start_measure g.in_degree in
    let (bs, e) =
      level_total g.adjacency_list (length g.in_degree) 1 temp (zero_ids temp) (omega arith) in
    let (c, answer) = detect_cycle_total g in
    elim (Bool-cases c) [
      | inl t ↦ let a = answer ∙ ap some t in inr (rw (a, get_execution_batches), a)
      | inr f ↦ let a = answer ∙ ap some f in inl (bs, rw (a, e, get_execution_batches), a)
    ]
