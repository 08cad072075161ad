-- ===== src/Missions/Graph/Keys.antt =====
-- The ids of a graph that `addTask` builds: the tasks and their counters have the same ids.
use local_first_se_platform.Base.{
  ◌≤◌, ◌<◌, String, ◌≡◌, refl, sym, ap, ◌∙◌, inl, inr, List, [], ◌∷◌, arith, if◌then◌else◌,
  Bool-cases, true, ◌==◌, eq_self, contains, one_if, count, All, Dict, insert, has, keys,
}
use local_first_se_platform.Missions.Graph.{
  neighbors, ensure, TaskGraph, Task, add_dependency, add_dependencies, add_task,
}
use local_first_se_platform.Missions.Graph.Counting.{IsUnique, insert-IsUnique, ensure-IsUnique}
use local_first_se_platform.Missions.Graph.Building.{add_tasks}

unfoldable push_key : String → List String → List String
push_key k [] = k ∷ []
push_key k (j ∷ js) = if j == k then j ∷ js else j ∷ push_key k js

keys-insert {ℓ} :
    {V : Type ℓ} (k : String) (v : V) (m : Dict V) → keys (insert k v m) ≡ push_key k (keys m)
unfolding insert push_key
keys-insert k v [] = refl
keys-insert k v ((j, w) ∷ m) = elim (Bool-cases (j == k)) [
  | inl same ↦ rw same refl
  | inr other ↦ rw other (ap (λ js. j ∷ js) (keys-insert k v m))
]

keys-held {ℓ} :
    {V : Type ℓ} (k : String) (m : Dict V) → has k m ≡ true → push_key k (keys m) ≡ keys m
unfolding has push_key
keys-held k [] h = cc
keys-held k ((j, w) ∷ m) h = elim (Bool-cases (j == k)) [
  | inl same ↦ rw same refl
  | inr other ↦ rw other (ap (λ js. j ∷ js) (keys-held k m (rw other at h)))
]

keys-ensure {ℓ} :
    {V : Type ℓ} (k : String) (v : V) (m : Dict V) → keys (ensure k v m) ≡ push_key k (keys m)
keys-ensure k v m = elim (Bool-cases (has k m)) [
  | inl old ↦ rw old (sym (keys-held k m old))
  | inr new ↦ rw new (keys-insert k v m)
]

push_twice : (k : String) (ks : List String) → push_key k (push_key k ks) ≡ push_key k ks
unfolding push_key
push_twice k [] = rw eq_self refl
push_twice k (j ∷ js) = elim (Bool-cases (j == k)) [
  | inl same ↦ rw (same, push_key, same) refl
  | inr other ↦ rw (other, push_key, other) (ap (λ is. j ∷ is) (push_twice k js))
]

count-push_key : (v k : String) (ks : List String) → count v ks ≤ count v (push_key k ks)
unfolding push_key count one_if
count-push_key v k [] = omega arith
count-push_key v k (j ∷ js) = ground (arith, count-push_key v k js)

count-pushed : (k : String) (ks : List String) → 0 < count k (push_key k ks)
unfolding push_key count one_if
count-pushed k [] = ground arith
count-pushed k (j ∷ js) = ground (arith, count-pushed k js)

add_dependencies-keys :
    (id : String) (ds ks : List String) (g : TaskGraph)
    → keys g.in_degree ≡ push_key id ks
    → keys (add_dependencies id ds g).in_degree ≡ push_key id ks
unfolding add_dependencies add_dependency
add_dependencies-keys id [] ks g h = h
add_dependencies-keys id (d ∷ ds) ks g h =
    add_dependencies-keys id ds ks (add_dependency id d g) one
  where
    one : keys (add_dependency id d g).in_degree ≡ push_key id ks
    one = elim (Bool-cases (contains id (neighbors (ensure d [] g.adjacency_list) d))) [
      | inl old ↦ rw (old, add_dependency) h
      | inr new ↦
          rw (new, add_dependency)
            (keys-insert id _ g.in_degree ∙ ap (push_key id) h ∙ push_twice id ks)
    ]

add_dependencies-tasks :
    (id : String) (ds : List String) (g : TaskGraph) → (add_dependencies id ds g).tasks ≡ g.tasks
unfolding add_dependencies add_dependency
add_dependencies-tasks id [] g = refl
add_dependencies-tasks id (d ∷ ds) g =
    add_dependencies-tasks id ds (add_dependency id d g)
    ∙ elim (Bool-cases (contains id (neighbors (ensure d [] g.adjacency_list) d))) [
      | inl old ↦ rw (old, add_dependency) refl
      | inr new ↦ rw (new, add_dependency) refl
    ]

abbrev SameKeys : TaskGraph → Type 0
SameKeys g = keys g.tasks ≡ keys g.in_degree

add_task-keys :
    (t : Task) (g : TaskGraph) → keys (add_task t g).in_degree ≡ push_key t.id (keys g.in_degree)
unfolding add_task
add_task-keys t g =
    add_dependencies-keys t.id t.depends_on_task_ids (keys g.in_degree) _
      (keys-ensure t.id 0 g.in_degree)

add_task-SameKeys : (t : Task) (g : TaskGraph) → SameKeys g → SameKeys (add_task t g)
unfolding add_task
add_task-SameKeys t g h =
    ap (λ (m : Dict Task). keys m) (add_dependencies-tasks t.id t.depends_on_task_ids _)
    ∙ keys-insert t.id t g.tasks
    ∙ ap (push_key t.id) h
    ∙ sym (add_task-keys t g)

pub add_tasks-SameKeys : (ts : List Task) (g : TaskGraph) → SameKeys g → SameKeys (add_tasks ts g)
unfolding add_tasks
add_tasks-SameKeys [] g h = h
add_tasks-SameKeys (t ∷ ts) g h = add_tasks-SameKeys ts (add_task t g) (add_task-SameKeys t g h)

add_tasks-keys :
    (v : String) (ts : List Task) (g : TaskGraph)
    → count v (keys g.in_degree) ≤ count v (keys (add_tasks ts g).in_degree)
unfolding add_tasks
add_tasks-keys v [] g = omega arith
add_tasks-keys v (t ∷ ts) g = omega (
  arith,
  ap (count v) (add_task-keys t g),
  count-push_key v t.id (keys g.in_degree),
  add_tasks-keys v ts (add_task t g),
)

-- Every task has a counter.
pub add_tasks-has_keys :
    (ts : List Task) (g : TaskGraph)
    → All (λ t. 0 < count t.id (keys (add_tasks ts g).in_degree)) ts
unfolding add_tasks
add_tasks-has_keys [] g = tt
add_tasks-has_keys (t ∷ ts) g = (
  omega (
    arith,
    ap (count t.id) (add_task-keys t g),
    count-pushed t.id (keys g.in_degree),
    add_tasks-keys t.id ts (add_task t g),
  ),
  add_tasks-has_keys ts (add_task t g),
)

add_dependencies-IsUnique :
    (id : String) (ds : List String) (g : TaskGraph)
    → IsUnique g.adjacency_list
    → IsUnique (add_dependencies id ds g).adjacency_list
unfolding add_dependencies add_dependency
add_dependencies-IsUnique id [] g h = h
add_dependencies-IsUnique id (d ∷ ds) g h =
    add_dependencies-IsUnique id ds (add_dependency id d g) one
  where
    one : IsUnique (add_dependency id d g).adjacency_list
    one = elim (Bool-cases (contains id (neighbors (ensure d [] g.adjacency_list) d))) [
      | inl old ↦ rw (old, add_dependency) (ensure-IsUnique d [] g.adjacency_list h)
      | inr new ↦
          rw (new, add_dependency)
            (insert-IsUnique d _ (ensure d [] g.adjacency_list)
              (ensure-IsUnique d [] g.adjacency_list h))
    ]

pub add_tasks-IsUnique :
    (ts : List Task) (g : TaskGraph)
    → IsUnique g.adjacency_list
    → IsUnique (add_tasks ts g).adjacency_list
unfolding add_tasks add_task
add_tasks-IsUnique [] g h = h
add_tasks-IsUnique (t ∷ ts) g h = add_tasks-IsUnique ts (add_task t g) (
    add_dependencies-IsUnique t.id t.depends_on_task_ids _
      (ensure-IsUnique t.id [] g.adjacency_list h))
