-- ===== src/Missions/Graph/Kahn/Complete.antt =====
-- Both loops complete the same tasks: where `detectCycle` gets through all of them, so does
-- `getExecutionBatches`.
use local_first_se_platform.Base.{
  ℕ, zero, suc, ◌+◌, ◌≤◌, ◌<◌, String, ◌≡◌, refl, sym, ap, ◌∙◌, inl, inr, Bool, false, Option, none,
  some, List, [], ◌∷◌, ◌++◌, arith, length, Dict, lookup, keys, same_id, one_if, count,
  count-append, ℤ, pos, is_pos, IsDiff, Bool-cases, eq_self, nat_eq, not,
}
use local_first_se_platform.Missions.Graph.{
  detect_cycle, neighbors, copy_degrees, zero_ids, relax, relax_batch, level, drain, TaskGraph,
  ExecutionBatch,
}
use mathlib.Core.List.{append-nil}
use local_first_se_platform.Missions.Graph.Building.{IsSound}
use local_first_se_platform.Missions.Graph.Counting.{IsUnique, occ, total-le-occ}
use local_first_se_platform.Missions.Graph.Kahn.Relax.{value, count-relax}
use local_first_se_platform.Missions.Graph.Kahn.Fuel.{positives, relax_measure, start_measure}
use local_first_se_platform.Missions.Graph.Kahn.Inv.{
  Inv, degree, step-Inv, start-Inv, onto, count-onto, relax_batch-Inv, zero_ids-count,
}

-- Each id of the graph is queued, completed, or has a positive counter.
abbrev Exact : TaskGraph → Dict ℤ → List String → List String → Type 0
Exact g temp completed queue =
    (v : String)
    → count v queue + count v completed + one_if (is_pos (value v temp))
      ≡ count v (keys g.in_degree)

-- The sources of the edges into a completed task were completed before it.
abbrev Ordered : TaskGraph → List String → Type 0
Ordered g [] = Unit
Ordered g (q ∷ qs) =
    ((u : String) → 0 < count q (neighbors g.adjacency_list u) → 0 < count u qs) × Ordered g qs

step-Exact :
    (g : TaskGraph) (temp : Dict ℤ) (completed xs next : List String) (q : String)
    → Exact g temp completed (q ∷ (xs ++ next))
    → Exact g
        (relax (neighbors g.adjacency_list q) temp next).0
        (q ∷ completed)
        (xs ++ (relax (neighbors g.adjacency_list q) temp next).1)
unfolding count
step-Exact g temp completed xs next q h v =
    let ns = neighbors g.adjacency_list q in
    omega (
      arith,
      h v,
      count-append v xs (relax ns temp next).1,
      count-append v xs next,
      count-relax v ns temp next,
    )

relax_batch-Exact :
    (g : TaskGraph) (xs : List String) (temp : Dict ℤ) (completed next : List String)
    → Exact g temp completed (xs ++ next)
    → Exact g
        (relax_batch g.adjacency_list xs temp next).0
        (onto xs completed)
        (relax_batch g.adjacency_list xs temp next).1
unfolding relax_batch onto
relax_batch-Exact g [] temp completed next h = h
relax_batch-Exact g (x ∷ xs) temp completed next h =
    relax_batch-Exact g xs _ (x ∷ completed) _ (step-Exact g temp completed xs next x h)

abbrev pub scheduled : List ExecutionBatch → List String
scheduled [] = []
scheduled (b ∷ bs) = b.task_ids ++ scheduled bs

pub cons-eq-some :
    (o : Option (List ExecutionBatch)) (b : ExecutionBatch) (bs : List ExecutionBatch)
    → Path
        (Option (List ExecutionBatch))
        (elim o [ none ↦ none | some rest ↦ some (b ∷ rest) ])
        (some bs)
    → (rest : List ExecutionBatch) × (o ≡ some rest) × (b ∷ rest ≡ bs)
cons-eq-some none b bs e = cc
cons-eq-some (some rest) b bs e = (rest, refl, cc)

-- What a loop leaves when its queue is empty.
record Ended (g : TaskGraph) (completed : List String) : Type 0 where
  temp : Dict ℤ
  inv : Inv g temp completed []
  exact : Exact g temp completed []

drain-Ended :
    (g : TaskGraph) (fuel : ℕ) (temp : Dict ℤ) (completed queue : List String) (n : ℕ)
    → IsSound g
    → Inv g temp completed queue
    → Exact g temp completed queue
    → Ordered g completed
    → positives temp + length queue + length completed ≡ length g.in_degree
    → drain g.adjacency_list fuel temp queue (length completed) ≡ some n
    → (done : List String) × (e : Ended g done) × Ordered g done
      × (positives e.temp + n ≡ length g.in_degree)
unfolding drain count one_if
drain-Ended g zero temp completed [] n sound inv exact ordered m e =
    (completed, record { temp = temp; inv = inv; exact = exact }, ordered, ground arith)
drain-Ended g (suc fuel) temp completed [] n sound inv exact ordered m e =
    (completed, record { temp = temp; inv = inv; exact = exact }, ordered, ground arith)
drain-Ended g zero temp completed (q ∷ qs) n sound inv exact ordered m e = cc
drain-Ended g (suc fuel) temp completed (q ∷ qs) n sound inv exact ordered m e =
    let ns = neighbors g.adjacency_list q in
    let one : length completed + 1 ≡ length (q ∷ completed) = omega arith in
    drain-Ended g fuel (relax ns temp qs).0 (q ∷ completed) (relax ns temp qs).1 n sound
      (step-Inv g temp completed [] qs q sound inv) (step-Exact g temp completed [] qs q exact)
      (λ u edge. inv.before q u (ground arith) edge, ordered)
      (omega (arith, m, relax_measure ns temp qs))
      (ap (drain g.adjacency_list fuel (relax ns temp qs).0 (relax ns temp qs).1) (sym one) ∙ e)

nothing_more :
    (v : String) (n : ℕ) (bs : List ExecutionBatch)
    → Path (Option (List ExecutionBatch)) (some []) (some bs)
    → n ≡ count v (scheduled bs) + n
unfolding count
nothing_more v n [] e = omega arith
nothing_more v n (b ∷ bs) e = cc

level-Ended :
    (g : TaskGraph) (fuel num : ℕ) (temp : Dict ℤ) (completed batch : List String)
    (bs : List ExecutionBatch)
    → IsSound g
    → Inv g temp completed batch
    → Exact g temp completed batch
    → level g.adjacency_list fuel num temp batch ≡ some bs
    → (done : List String) × Ended g done
      × ((v : String) → count v done ≡ count v (scheduled bs) + count v completed)
unfolding level count
level-Ended g zero num temp completed [] bs sound inv exact e =
    (completed, record { temp = temp; inv = inv; exact = exact }, λ v. nothing_more v _ bs e)
level-Ended g (suc fuel) num temp completed [] bs sound inv exact e =
    (completed, record { temp = temp; inv = inv; exact = exact }, λ v. nothing_more v _ bs e)
level-Ended g zero num temp completed (x ∷ xs) bs sound inv exact e = cc
level-Ended g (suc fuel) num temp completed (x ∷ xs) bs sound inv exact e =
    let after = relax_batch g.adjacency_list (x ∷ xs) temp [] in
    let b : ExecutionBatch = record { batch_number = num; task_ids = x ∷ xs } in
    let (rest, made, same) = cons-eq-some _ b bs e in
    let inv' = relax_batch-Inv g (x ∷ xs) temp completed [] sound (rw append-nil inv) in
    let exact' = relax_batch-Exact g (x ∷ xs) temp completed [] (rw append-nil exact) in
    let (done, ended, counts) =
      level-Ended g fuel (num + 1) after.0 (onto (x ∷ xs) completed) after.1 rest sound inv' exact'
        made in
    (
      done,
      ended,
      λ v. omega (
        arith,
        counts v,
        count-onto v (x ∷ xs) completed,
        count-append v (x ∷ xs) (scheduled rest),
        ap (λ l. count v (scheduled l)) same,
      ),
    )

positive_of_value : (v : String) (m : Dict ℤ) → one_if (is_pos (value v m)) ≤ positives m
unfolding positives lookup one_if
positive_of_value v [] = omega arith
positive_of_value v ((k, z) ∷ m) = ground (arith, positive_of_value v m)

used_up : (z : ℤ) (a b : ℕ) → IsDiff z a b → a ≤ b → is_pos z ≡ false
used_up (pos zero) a b h le = refl
used_up (pos (suc n)) a b h le = absurd (omega arith)
used_up (ℤ.negsuc n) a b h le = refl

-- A task whose sources are all completed has no positive counter.
reached :
    (g : TaskGraph) (v : String) (done : List String)
    → IsSound g
    → IsUnique g.adjacency_list
    → (e : Ended g done)
    → ((u : String) → 0 < count v (neighbors g.adjacency_list u) → 0 < count u done)
    → count v done ≡ count v (keys g.in_degree)
unfolding count one_if
reached g v done sound unique e sources =
    let all = total-le-occ v g.adjacency_list done unique sources in
    let none_open =
      used_up (value v e.temp) (degree g v) (occ g.adjacency_list v done) (e.inv.differs v)
        (omega (arith, all, sound.counted v)) in
    omega (arith, e.exact v, ap one_if none_open)

Ordered-reached :
    (g : TaskGraph) (done order : List String)
    → IsSound g
    → IsUnique g.adjacency_list
    → Ended g done
    → Ordered g order
    → ((v : String) → 0 < count v order → 0 < count v (keys g.in_degree))
    → (v : String) → 0 < count v order
    → 0 < count v done
unfolding count one_if
Ordered-reached g done [] sound unique e ordered listed v h = absurd (omega arith)
Ordered-reached g done (q ∷ qs) sound unique e ordered listed v h =
    let earlier : (u : String) → 0 < count u qs → 0 < count u done =
      Ordered-reached g done qs sound unique e ordered.1 (λ u k. listed u (omega (arith, k))) in
    elim (same_id q v) [
      | yes same ↦ rw (← same) (
          omega (
            arith,
            reached g q done sound unique e (λ u edge. earlier u (ordered.0 u edge)),
            listed q (ground (arith, eq_self q)),
          ))
      | no other ↦ earlier v (ground arith)
    ]

start_exact :
    (v : String) (m : Dict ℕ)
    → count v (keys m) ≤ 1
    → count v (zero_ids (copy_degrees m)) + one_if (is_pos (value v (copy_degrees m)))
      ≡ count v (keys m)
unfolding copy_degrees zero_ids lookup count one_if
start_exact v [] h = refl
start_exact v ((k, zero) ∷ m) h = ground (arith, zero_ids-count v m, start_exact v m (ground arith))
start_exact v ((k, suc n) ∷ m) h =
    ground (arith, zero_ids-count v m, start_exact v m (ground arith))

start-Exact :
    (g : TaskGraph)
    → IsSound g
    → Exact g (copy_degrees g.in_degree) [] (zero_ids (copy_degrees g.in_degree))
unfolding count
start-Exact g sound v = omega (arith, start_exact v g.in_degree (sound.unique v))

length-keys {ℓ} : {V : Type ℓ} (m : Dict V) → length (keys m) ≡ length m
length-keys [] = refl
length-keys ((k, v) ∷ m) = omega (arith, length-keys m)

all_processed :
    (o : Option ℕ) (m : ℕ)
    → Path (Option Bool) (elim o [ none ↦ none | some n ↦ some (not (nat_eq n m)) ]) (some false)
    → o ≡ some m
all_processed none m e = cc
all_processed (some n) m e = elim (Bool-cases (nat_eq n m)) [
  | inl same ↦ ap some (ground arith)
  | inr other ↦ cc
]

detect_cycle-drain :
    (g : TaskGraph)
    → detect_cycle g ≡ some false
    → drain g.adjacency_list
        (length g.in_degree)
        (copy_degrees g.in_degree)
        (zero_ids (copy_degrees g.in_degree))
        0
      ≡ some (length g.tasks)
unfolding detect_cycle
detect_cycle-drain g e = all_processed _ (length g.tasks) e

-- If `detectCycle` finds no cycle, every id with a counter stands in the batches.
pub all_scheduled :
    (g : TaskGraph) (bs : List ExecutionBatch)
    → IsSound g
    → IsUnique g.adjacency_list
    → keys g.tasks ≡ keys g.in_degree
    → detect_cycle g ≡ some false
    → level g.adjacency_list
        (length g.in_degree)
        1
        (copy_degrees g.in_degree)
        (zero_ids (copy_degrees g.in_degree))
      ≡ some bs
    → (v : String) → 0 < count v (keys g.in_degree)
    → 0 < count v (scheduled bs)
unfolding count
all_scheduled g bs sound unique same acyclic made v h =
    let temp = copy_degrees g.in_degree in
    let inv = start-Inv g sound in
    let exact = start-Exact g sound in
    let (order, first, ordered, none_left) =
      drain-Ended g (length g.in_degree) temp [] (zero_ids temp) (length g.tasks) sound inv exact tt
        (omega (arith, start_measure g.in_degree)) (detect_cycle-drain g acyclic) in
    let (done, second, counts) =
      level-Ended g (length g.in_degree) 1 temp [] (zero_ids temp) bs sound inv exact made in
    let all : length g.tasks ≡ length g.in_degree =
      sym (length-keys g.tasks) ∙ ap length same ∙ length-keys g.in_degree in
    let listed : (u : String) → count u order ≡ count u (keys g.in_degree) =
      λ u. omega (arith, first.exact u, positive_of_value u first.temp, none_left, all) in
    let reached' =
      Ordered-reached g done order sound unique second ordered (λ u k. omega (arith, k, listed u)) v
        (omega (arith, h, listed v)) in
    omega (arith, reached', counts v)
