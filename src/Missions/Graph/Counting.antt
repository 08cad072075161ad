-- ===== src/Missions/Graph/Counting.antt =====
-- Counting ids in the graph of task_graph.ts: a counter of `inDegree` is the number of edges into
-- its task.
use local_first_se_platform.Base.{
  ℕ, ◌+◌, ◌*◌, ◌≤◌, ◌<◌, String, ◌≡◌, refl, sym, ap, ◌∙◌, inl, inr, false, Option, List, [], ◌∷◌,
  ◌++◌, arith, if◌then◌else◌, Bool-cases, ◌==◌, contains, Dict, lookup, insert, has, keys,
  lookup-insert, has-lookup,
}
use local_first_se_platform.Base.{one_if, count, count-append}
use local_first_se_platform.Base.{or_else}
use local_first_se_platform.Missions.Graph.{
  neighbors, ensure, TaskGraph, Task, add_dependency, add_dependencies, add_task,
}

-- The edges into `v`, over all tasks.
unfoldable pub total : String → Dict (List String) → ℕ
total v [] = 0
total v ((k, ns) ∷ m) = count v ns + total v m

-- The edges into `v` from the tasks of a list.
unfoldable pub occ : Dict (List String) → String → List String → ℕ
occ adjacency v [] = 0
occ adjacency v (u ∷ us) = count v (neighbors adjacency u) + occ adjacency v us

total-insert :
    (v k : String) (ns : List String) (m : Dict (List String))
    → total v (insert k ns m) + count v (neighbors m k) ≡ total v m + count v ns
unfolding total insert lookup count
total-insert v k ns [] = omega arith
total-insert v k ns ((j, w) ∷ m) = ground (arith, total-insert v k ns m)

total-ensure : (v k : String) (m : Dict (List String)) → total v (ensure k [] m) ≡ total v m
total-ensure v k m = elim (Bool-cases (has k m)) [
  | inl old ↦ rw old
  | inr new ↦ rw new (
      unfold count in
      omega (
        arith,
        total-insert v k [] m,
        ap (λ (o : Option (List String)). count v (or_else o [])) (has-lookup k m new),
      ))
]

count-keys-insert {ℓ} :
    {V : Type ℓ} (u k : String) (v : V) (m : Dict V)
    → count u (keys (insert k v m)) ≡ count u (keys m) + (if has k m then 0 else one_if (k == u))
unfolding insert has count one_if
count-keys-insert u k v [] = omega arith
count-keys-insert u k v ((j, w) ∷ m) = ground (arith, count-keys-insert u k v m)

not_has-count-keys {ℓ} :
    {V : Type ℓ} (k : String) (m : Dict V) → has k m ≡ false → count k (keys m) ≡ 0
unfolding has count one_if
not_has-count-keys k [] h = refl
not_has-count-keys k ((j, w) ∷ m) h = ground (arith, not_has-count-keys k m)

-- Each key of a map stands in it once.
abbrev pub IsUnique {ℓ} : {V : Type ℓ} → Dict V → Type 0
IsUnique m = (u : String) → count u (keys m) ≤ 1

pub insert-IsUnique {ℓ} :
    {V : Type ℓ} (k : String) (v : V) (m : Dict V) → IsUnique m → IsUnique (insert k v m)
unfolding one_if
insert-IsUnique k v m h u = ground (arith, count-keys-insert u k v m, not_has-count-keys k m, h u)

pub ensure-IsUnique {ℓ} :
    {V : Type ℓ} (k : String) (v : V) (m : Dict V) → IsUnique m → IsUnique (ensure k v m)
ensure-IsUnique k v m h = elim (Bool-cases (has k m)) [
  | inl old ↦ rw old h
  | inr new ↦ rw new (insert-IsUnique k v m h)
]

-- What `addTask` keeps: each counter is the number of edges into its id.
abbrev pub IsCounted : TaskGraph → Type 0
IsCounted g = (v : String) → or_else (lookup v g.in_degree) 0 ≡ total v g.adjacency_list

-- A new edge from `dep_id` to `task_id` raises both sides of the count by one.
edge-IsCounted :
    (task_id dep_id v : String) (m : Dict (List String)) (degrees : Dict ℕ)
    → ((w : String) → or_else (lookup w degrees) 0 ≡ total w m)
    → or_else (lookup v (insert task_id (or_else (lookup task_id degrees) 0 + 1) degrees)) 0
      ≡ total v (insert dep_id (neighbors m dep_id ++ task_id ∷ []) m)
unfolding count one_if
edge-IsCounted task_id dep_id v m degrees h = rw lookup-insert (
    ground (
      arith,
      total-insert v dep_id (neighbors m dep_id ++ task_id ∷ []) m,
      count-append v (neighbors m dep_id) (task_id ∷ []),
      h v,
    ))

pub add_dependency-IsCounted :
    (task_id dep_id : String) (g : TaskGraph)
    → IsCounted g
    → IsCounted (add_dependency task_id dep_id g)
unfolding add_dependency
add_dependency-IsCounted task_id dep_id g h v =
    let m = ensure dep_id [] g.adjacency_list in
    elim (Bool-cases (contains task_id (neighbors m dep_id))) [
      | inl old ↦ rw old (h v ∙ sym (total-ensure v dep_id g.adjacency_list))
      | inr new ↦ rw new (
          edge-IsCounted task_id dep_id v m g.in_degree
            (λ w. h w ∙ sym (total-ensure w dep_id g.adjacency_list)))
    ]

add_dependencies-IsCounted :
    (task_id : String) (ds : List String) (g : TaskGraph)
    → IsCounted g
    → IsCounted (add_dependencies task_id ds g)
unfolding add_dependencies
add_dependencies-IsCounted task_id [] g h = h
add_dependencies-IsCounted task_id (d ∷ ds) g h =
    add_dependencies-IsCounted task_id ds (add_dependency task_id d g)
      (add_dependency-IsCounted task_id d g h)

lookup-ensure :
    (v k : String) (m : Dict ℕ) → or_else (lookup v (ensure k 0 m)) 0 ≡ or_else (lookup v m) 0
lookup-ensure v k m = elim (Bool-cases (has k m)) [
  | inl old ↦ rw old
  | inr new ↦ rw new (rw lookup-insert (ground (arith, has-lookup k m)))
]

pub add_task-IsCounted : (task : Task) (g : TaskGraph) → IsCounted g → IsCounted (add_task task g)
unfolding add_task
add_task-IsCounted task g h =
    add_dependencies-IsCounted task.id task.depends_on_task_ids _
      λ v. lookup-ensure v task.id g.in_degree ∙ h v ∙ sym (total-ensure v task.id g.adjacency_list)

occ-cons-le :
    (v k : String) (ns : List String) (m : Dict (List String)) (us : List String)
    → ((u : String) → count u us ≤ 1)
    → occ ((k, ns) ∷ m) v us ≤ count k us * count v ns + occ m v us
unfolding occ lookup count one_if
occ-cons-le v k ns m [] h = omega arith
occ-cons-le v k ns m (u ∷ us) h =
    ground (arith, occ-cons-le v k ns m us (λ w. omega (arith, h w)), h u)

occ-nil : (v : String) (us : List String) → occ [] v us ≡ 0
unfolding occ lookup count
occ-nil v [] = refl
occ-nil v (u ∷ us) = omega (arith, occ-nil v us)

-- Distinct tasks have no more edges into `v` than all tasks together.
pub occ-le-total :
    (v : String) (m : Dict (List String)) (us : List String)
    → ((u : String) → count u us ≤ 1)
    → occ m v us ≤ total v m
unfolding total
occ-le-total v [] us h = omega (arith, occ-nil v us)
occ-le-total v ((k, ns) ∷ m) us h =
    grind (arith, occ-cons-le v k ns m us h, occ-le-total v m us h, h k)

occ-cons :
    (v k : String) (ns : List String) (m : Dict (List String)) (us : List String)
    → has k m ≡ false
    → occ ((k, ns) ∷ m) v us ≡ count k us * count v ns + occ m v us
unfolding occ lookup count one_if
occ-cons v k ns m [] h = omega arith
occ-cons v k ns m (u ∷ us) h = ground (arith, occ-cons v k ns m us h, has-lookup k m h)

has_of_count {ℓ} : {V : Type ℓ} (k : String) (m : Dict V) → count k (keys m) ≡ 0 → has k m ≡ false
unfolding has count one_if
has_of_count k [] h = refl
has_of_count k ((j, w) ∷ m) h = ground (arith, has_of_count k m)

one_more : (a b : ℕ) → (0 < b → 1 ≤ a) → b ≤ a * b
one_more a b h = grind arith

edge_on :
    (v k u : String) (ns : List String) (m : Dict (List String))
    → has k m ≡ false
    → 0 < count v (neighbors m u)
    → 0 < count v (neighbors ((k, ns) ∷ m) u)
unfolding lookup count one_if
edge_on v k u ns m fresh edge = ground (arith, has-lookup k m fresh)

-- Tasks among which are all sources of edges into `v` have all the edges into `v`.
pub total-le-occ :
    (v : String) (m : Dict (List String)) (us : List String)
    → IsUnique m
    → ((u : String) → 0 < count v (neighbors m u) → 0 < count u us)
    → total v m ≤ occ m v us
unfolding total lookup count one_if
total-le-occ v [] us unique h = omega arith
total-le-occ v ((k, ns) ∷ m) us unique h =
    let fresh : has k m ≡ false = has_of_count k m (ground (arith, unique k)) in
    let rest : total v m ≤ occ m v us =
      total-le-occ v m us (λ u. omega (arith, unique u))
        (λ u edge. h u (edge_on v k u ns m fresh edge)) in
    omega (
      arith,
      rest,
      occ-cons v k ns m us fresh,
      one_more (count k us) (count v ns) (λ e. h k (ground arith)),
    )
