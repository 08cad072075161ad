-- ===== src/Missions/Graph/Kahn/Inv.antt =====
-- The invariant that the loops of `detectCycle` and `getExecutionBatches` share.
use local_first_se_platform.Base.{
  ℕ, zero, suc, ◌+◌, ◌≤◌, ◌<◌, String, ◌≡◌, refl, sym, subst, Bool, true, false, List, [], ◌∷◌,
  ◌++◌, arith, ◌==◌, Dict, lookup, keys,
}
use local_first_se_platform.Base.{
  one_if, count, count-append, ℤ, pos, is_pos, IsDiff, not_pos-IsDiff,
}
use local_first_se_platform.Base.{or_else}
use local_first_se_platform.Missions.Graph.{
  neighbors, copy_degrees, zero_ids, relax, relax_batch, TaskGraph,
}
use local_first_se_platform.Missions.Graph.Building.{IsSound}
use native.Mathlib.Decide.{dec_lt}
use local_first_se_platform.Missions.Graph.Counting.{occ, occ-le-total}
use local_first_se_platform.Missions.Graph.Kahn.Relax.{value, relax-IsDiff, count-relax}

abbrev pub degree : TaskGraph → String → ℕ
degree g v = or_else (lookup v g.in_degree) 0

-- What holds between two steps of the loops: `completed` are the ids taken off the queue so far.
pub record Inv (g : TaskGraph) (temp : Dict ℤ) (completed queue : List String) : Type 0 where
  pub differs : (v : String) → IsDiff (value v temp) (degree g v) (occ g.adjacency_list v completed)
  pub once : (v : String) → count v queue + count v completed + one_if (is_pos (value v temp)) ≤ 1
  pub before :
      (v u : String)
      → 0 < count v queue
      → 0 < count v (neighbors g.adjacency_list u)
      → 0 < count u completed

one_if-eq-zero : (b : Bool) → one_if b ≡ 0 → b ≡ false
unfolding one_if
one_if-eq-zero true h = absurd (omega arith)
one_if-eq-zero false h = refl

-- An id whose counter is used up has all of its predecessors among the completed ids.
completed_of_edge :
    (g : TaskGraph) (v u : String) (z : ℤ) (completed : List String)
    → IsSound g
    → ((w : String) → count w completed ≤ 1)
    → IsDiff z (degree g v) (occ g.adjacency_list v completed)
    → one_if (is_pos z) ≡ 0
    → 0 < count v (neighbors g.adjacency_list u)
    → 0 < count u completed
unfolding count occ one_if
completed_of_edge g v u z completed sound distinct differs used edge =
    elim (dec_lt 0 (count u completed)) [
      | yes found ↦ found
      | no missing ↦ absurd (
          omega (
            arith,
            occ-le-total v g.adjacency_list (u ∷ completed) (λ w. ground (arith, distinct w)),
            sound.counted v,
            not_pos-IsDiff z _ _ differs (one_if-eq-zero (is_pos z) used),
          ))
    ]

-- One id leaves the queue, and its neighbors are relaxed.
pub step-Inv :
    (g : TaskGraph) (temp : Dict ℤ) (completed xs next : List String) (q : String)
    → IsSound g
    → Inv g temp completed (q ∷ (xs ++ next))
    → Inv g
        (relax (neighbors g.adjacency_list q) temp next).0
        (q ∷ completed)
        (xs ++ (relax (neighbors g.adjacency_list q) temp next).1)
unfolding count occ
step-Inv g temp completed xs next q sound inv = record {
  differs = after;
  once = λ v. let c = counts v in omega arith;
  before = λ v u queued edge. elim (dec_lt 0 (count v (xs ++ next))) [
    | yes old ↦ let b = inv.before v u (omega arith) edge in omega arith
    | no new ↦
        completed_of_edge g v u (value v temp') (q ∷ completed) sound
          (λ w. let c = counts w in omega arith) (after v) (let c = counts v in omega arith) edge
  ];
}
  where
    temp' : Dict ℤ
    temp' = (relax (neighbors g.adjacency_list q) temp next).0

    queue' : List String
    queue' = (relax (neighbors g.adjacency_list q) temp next).1

    after :
        (v : String)
        → IsDiff
            (value v temp')
            (degree g v)
            (count v (neighbors g.adjacency_list q) + occ g.adjacency_list v completed)
    after v = relax-IsDiff v (neighbors g.adjacency_list q) temp next _ _ (inv.differs v)

    counts :
        (v : String)
        → (count v (xs ++ queue') ≡ count v xs + count v queue')
          × (count v (xs ++ next) ≡ count v xs + count v next)
          × (count v queue' + one_if (is_pos (value v temp'))
              ≡ count v next + one_if (is_pos (value v temp)))
          × (one_if (q == v)
                + count v (xs ++ next)
                + count v completed
                + one_if (is_pos (value v temp))
              ≤ 1)
    counts v = (
      count-append v xs queue',
      count-append v xs next,
      count-relax v (neighbors g.adjacency_list q) temp next,
      inv.once v,
    )

lookup-copy_degrees :
    (v : String) (m : Dict ℕ) → value v (copy_degrees m) ≡ pos (or_else (lookup v m) 0)
unfolding copy_degrees lookup
lookup-copy_degrees v [] = refl
lookup-copy_degrees v ((k, n) ∷ m) = ground (arith, lookup-copy_degrees v m)

pub zero_ids-count :
    (v : String) (m : Dict ℕ)
    → count v (zero_ids (copy_degrees m)) + one_if (is_pos (value v (copy_degrees m)))
      ≤ count v (keys m)
unfolding copy_degrees zero_ids lookup count one_if
zero_ids-count v [] = omega arith
zero_ids-count v ((k, zero) ∷ m) = ground (arith, zero_ids-count v m)
zero_ids-count v ((k, suc n) ∷ m) = ground (arith, zero_ids-count v m)

pub start-Inv :
    (g : TaskGraph)
    → IsSound g
    → Inv g (copy_degrees g.in_degree) [] (zero_ids (copy_degrees g.in_degree))
unfolding count occ
start-Inv g sound = record {
  differs = differs;
  once = λ v. omega (arith, sound.unique v, zero_ids-count v g.in_degree);
  before = λ v u queued edge.
      completed_of_edge g v u (value v (copy_degrees g.in_degree)) [] sound (λ w. omega arith)
        (differs v) (omega (arith, sound.unique v, zero_ids-count v g.in_degree)) edge;
}
  where
    differs : (v : String) → IsDiff (value v (copy_degrees g.in_degree)) (degree g v) 0
    differs v =
        subst (λ z. IsDiff z (degree g v) 0) (sym (lookup-copy_degrees v g.in_degree)) (omega arith)

-- The ids of a batch, on top of the ones completed before it.
unfoldable pub onto : List String → List String → List String
onto [] completed = completed
onto (x ∷ xs) completed = onto xs (x ∷ completed)

pub count-onto :
    (v : String) (xs completed : List String)
    → count v (onto xs completed) ≡ count v xs + count v completed
unfolding onto count
count-onto v [] completed = omega arith
count-onto v (x ∷ xs) completed = omega (arith, count-onto v xs (x ∷ completed))

pub relax_batch-Inv :
    (g : TaskGraph) (xs : List String) (temp : Dict ℤ) (completed next : List String)
    → IsSound g
    → Inv g temp completed (xs ++ next)
    → Inv g
        (relax_batch g.adjacency_list xs temp next).0
        (onto xs completed)
        (relax_batch g.adjacency_list xs temp next).1
unfolding relax_batch onto
relax_batch-Inv g [] temp completed next sound inv = inv
relax_batch-Inv g (x ∷ xs) temp completed next sound inv =
    relax_batch-Inv g xs _ (x ∷ completed) _ sound (step-Inv g temp completed xs next x sound inv)
