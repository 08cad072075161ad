-- ===== src/Missions/Graph/Kahn/Order.antt =====
-- The order in which `getExecutionBatches` places the tasks.
use local_first_se_platform.Base.{
  ℕ, zero, suc, ◌+◌, ◌≤◌, ◌<◌, String, ◌≡◌, refl, subst, false, Option, some, List, [], ◌∷◌, ◌++◌,
  arith, length, All, Dict,
}
use local_first_se_platform.Base.{count, count-append, ℤ}
use local_first_se_platform.Missions.Graph.{
  Task, empty_graph, neighbors, copy_degrees, zero_ids, relax_batch, level, TaskGraph,
  ExecutionBatch, batches, get_execution_batches, detect_cycle,
}
use local_first_se_platform.Missions.Graph.Building.{
  IsSound, HasEdges, add_tasks, add_tasks-IsSound, empty_graph-IsSound, add_tasks-HasEdges,
}
use mathlib.Core.List.{append-nil}
use local_first_se_platform.Missions.Graph.Keys.{
  add_tasks-SameKeys, add_tasks-has_keys, add_tasks-IsUnique,
}
use local_first_se_platform.Missions.Graph.Kahn.Complete.{scheduled, cons-eq-some, all_scheduled}
use local_first_se_platform.Missions.Graph.Kahn.Inv.{
  Inv, start-Inv, relax_batch-Inv, onto, count-onto,
}

-- Every predecessor of an id stands in an earlier batch, or among the ids seen before them all.
abbrev pub Follows : Dict (List String) → List String → List ExecutionBatch → Type 0
Follows adjacency seen [] = Unit
Follows adjacency seen (b ∷ bs) =
    ((v u : String)
      → 0 < count v b.task_ids
      → 0 < count v (neighbors adjacency u)
      → 0 < count u seen)
    × Follows adjacency (b.task_ids ++ seen) bs

Follows-mono :
    (adjacency : Dict (List String)) (seen more : List String) (bs : List ExecutionBatch)
    → ((u : String) → count u seen ≤ count u more)
    → Follows adjacency seen bs
    → Follows adjacency more bs
Follows-mono adjacency seen more [] le h = tt
Follows-mono adjacency seen more (b ∷ bs) le h = (
  λ v u queued edge. omega (arith, h.0 v u queued edge, le u),
  Follows-mono adjacency (b.task_ids ++ seen) (b.task_ids ++ more) bs
      (λ u. omega (arith, le u, count-append u b.task_ids seen, count-append u b.task_ids more))
      h.1,
)

-- The order of the batches that the loop makes from a state of its invariant.
abbrev IsScheduled : TaskGraph → List String → List ExecutionBatch → Type 0
IsScheduled g completed bs =
    Follows g.adjacency_list completed bs
    × ((v : String) → count v (scheduled bs) + count v completed ≤ 1)

nil-IsScheduled :
    (g : TaskGraph) (temp : Dict ℤ) (completed : List String) (bs : List ExecutionBatch)
    → Inv g temp completed []
    → Path (Option (List ExecutionBatch)) (some []) (some bs)
    → IsScheduled g completed bs
unfolding count
nil-IsScheduled g temp completed [] inv e = (tt, λ v. omega (arith, inv.once v))
nil-IsScheduled g temp completed (b ∷ bs) inv e = cc

level-IsScheduled :
    (g : TaskGraph) (fuel num : ℕ) (temp : Dict ℤ) (completed batch : List String)
    (bs : List ExecutionBatch)
    → IsSound g
    → Inv g temp completed batch
    → level g.adjacency_list fuel num temp batch ≡ some bs
    → IsScheduled g completed bs
unfolding level
level-IsScheduled g zero num temp completed [] bs sound inv e =
    nil-IsScheduled g temp completed bs inv e
level-IsScheduled g (suc fuel) num temp completed [] bs sound inv e =
    nil-IsScheduled g temp completed bs inv e
level-IsScheduled g zero num temp completed (x ∷ xs) bs sound inv e = cc
level-IsScheduled g (suc fuel) num temp completed (x ∷ xs) bs sound inv e =
    let after = relax_batch g.adjacency_list (x ∷ xs) temp [] in
    let b : ExecutionBatch = record { batch_number = num; task_ids = x ∷ xs } in
    let (rest, made, same) = cons-eq-some _ b bs e in
    let inv' = relax_batch-Inv g (x ∷ xs) temp completed [] sound (rw append-nil inv) in
    let (follows, distinct) =
      level-IsScheduled g fuel (num + 1) after.0 (onto (x ∷ xs) completed) after.1 rest sound inv'
        made in
    subst (IsScheduled g completed) same (
      (
        inv.before,
        Follows-mono g.adjacency_list (onto (x ∷ xs) completed) ((x ∷ xs) ++ completed) rest
            (λ u. omega (arith, count-onto u (x ∷ xs) completed, count-append u (x ∷ xs) completed))
            follows,
      ),
      λ v. omega (
        arith,
        distinct v,
        count-onto v (x ∷ xs) completed,
        count-append v (x ∷ xs) (scheduled rest),
      ),
    )

-- The dependencies of every task that a batch lists stand in earlier batches.
abbrev pub DepsFirst : List Task → List String → List ExecutionBatch → Type 0
DepsFirst ts seen [] = Unit
DepsFirst ts seen (b ∷ bs) =
    All
      (λ t.
        (d : String)
        → 0 < count t.id b.task_ids
        → 0 < count d t.depends_on_task_ids
        → 0 < count d seen)
      ts
    × DepsFirst ts (b.task_ids ++ seen) bs

All-map : {P Q : Task → Type 0} (ts : List Task) → ((t : Task) → P t → Q t) → All P ts → All Q ts
All-map [] f h = tt
All-map (t ∷ ts) f h = (f t h.0, All-map ts f h.1)

Follows-DepsFirst :
    (g : TaskGraph) (ts : List Task) (seen : List String) (bs : List ExecutionBatch)
    → All (HasEdges g) ts
    → Follows g.adjacency_list seen bs
    → DepsFirst ts seen bs
Follows-DepsFirst g ts seen [] edges h = tt
Follows-DepsFirst g ts seen (b ∷ bs) edges h = (
  All-map ts (λ t edge d listed needed. h.0 t.id d listed (edge d needed)) edges,
  Follows-DepsFirst g ts (b.task_ids ++ seen) bs edges h.1,
)

get_execution_batches-level :
    (g : TaskGraph) (bs : List ExecutionBatch)
    → get_execution_batches g ≡ batches bs
    → level g.adjacency_list
        (length g.in_degree)
        1
        (copy_degrees g.in_degree)
        (zero_ids (copy_degrees g.in_degree))
      ≡ some bs
unfolding get_execution_batches
get_execution_batches-level g bs e = ground arith

get_execution_batches-acyclic :
    (g : TaskGraph) (bs : List ExecutionBatch)
    → get_execution_batches g ≡ batches bs
    → detect_cycle g ≡ some false
unfolding get_execution_batches
get_execution_batches-acyclic g bs e = ground arith

-- For a graph that `addTask` builds from any list of tasks, when `getExecutionBatches` returns
-- batches, then every dependency of a task that stands in a batch stands in an earlier one, no id
-- stands in the batches twice, and the id of every task stands in them once.
pub get_execution_batches-DepsFirst :
    (ts : List Task) (bs : List ExecutionBatch)
    → get_execution_batches (add_tasks ts empty_graph) ≡ batches bs
    → DepsFirst ts [] bs
      × ((v : String) → count v (scheduled bs) ≤ 1)
      × All (λ t. count t.id (scheduled bs) ≡ 1) ts
get_execution_batches-DepsFirst ts bs e =
    let g = add_tasks ts empty_graph in
    let sound = add_tasks-IsSound ts empty_graph empty_graph-IsSound in
    let made = get_execution_batches-level g bs e in
    let (follows, distinct) =
      level-IsScheduled g (length g.in_degree) 1 (copy_degrees g.in_degree) []
        (zero_ids (copy_degrees g.in_degree)) bs sound (start-Inv g sound) made in
    let none_left =
      all_scheduled g bs sound (add_tasks-IsUnique ts empty_graph empty_graph-IsSound.unique)
        (add_tasks-SameKeys ts empty_graph refl) (get_execution_batches-acyclic g bs e) made in
    (
      Follows-DepsFirst g ts [] bs (add_tasks-HasEdges ts empty_graph) follows,
      λ v. omega (arith, distinct v),
      All-map ts (λ t has_counter. omega (arith, has_counter, none_left t.id, distinct t.id))
          (add_tasks-has_keys ts empty_graph),
    )
