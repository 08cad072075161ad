-- ===== src/Missions/Graph/Building.antt =====
-- A graph that `addTask` builds is sound: its counters are unique and count its edges.
use local_first_se_platform.Base.{
  ◌≤◌, ◌<◌, String, ◌≡◌, refl, ap, inl, inr, List, [], ◌∷◌, arith, Bool-cases, same_id, contains,
  one_if, count, count-append, count-contains, All, Dict, lookup, insert, has, lookup-insert,
  has-lookup,
}
use local_first_se_platform.Missions.Graph.{
  neighbors, ensure, TaskGraph, Task, empty_graph, add_dependency, add_dependencies, add_task,
}
use local_first_se_platform.Missions.Graph.Counting.{
  total, IsCounted, IsUnique, insert-IsUnique, ensure-IsUnique, add_task-IsCounted,
}

pub record IsSound (g : TaskGraph) : Type 0 where
  pub counted : IsCounted g
  pub unique : IsUnique g.in_degree

add_dependency-IsUnique :
    (task_id dep_id : String) (g : TaskGraph)
    → IsUnique g.in_degree
    → IsUnique (add_dependency task_id dep_id g).in_degree
unfolding add_dependency
add_dependency-IsUnique task_id dep_id g h =
    elim (Bool-cases (contains task_id (neighbors (ensure dep_id [] g.adjacency_list) dep_id))) [
      | inl old ↦ rw old h
      | inr new ↦ rw new (insert-IsUnique task_id _ g.in_degree h)
    ]

add_dependencies-IsUnique :
    (task_id : String) (ds : List String) (g : TaskGraph)
    → IsUnique g.in_degree
    → IsUnique (add_dependencies task_id ds g).in_degree
unfolding add_dependencies
add_dependencies-IsUnique task_id [] g h = h
add_dependencies-IsUnique task_id (d ∷ ds) g h =
    add_dependencies-IsUnique task_id ds (add_dependency task_id d g)
      (add_dependency-IsUnique task_id d g h)

add_task-IsSound : (task : Task) (g : TaskGraph) → IsSound g → IsSound (add_task task g)
unfolding add_task
add_task-IsSound task g h = record {
  counted = add_task-IsCounted task g h.counted;
  unique =
      add_dependencies-IsUnique task.id task.depends_on_task_ids _
        (ensure-IsUnique task.id 0 g.in_degree h.unique);
}

-- A graph as its callers build it: `addTask` for one task after the other.
unfoldable pub add_tasks : List Task → TaskGraph → TaskGraph
add_tasks [] g = g
add_tasks (t ∷ ts) g = add_tasks ts (add_task t g)

pub add_tasks-IsSound : (ts : List Task) (g : TaskGraph) → IsSound g → IsSound (add_tasks ts g)
unfolding add_tasks
add_tasks-IsSound [] g h = h
add_tasks-IsSound (t ∷ ts) g h = add_tasks-IsSound ts (add_task t g) (add_task-IsSound t g h)

pub empty_graph-IsSound : IsSound empty_graph
unfolding lookup total count
empty_graph-IsSound = record { counted = λ v. refl; unique = λ u. omega arith }

neighbors-ensure :
    (u k : String) (m : Dict (List String)) → neighbors (ensure k [] m) u ≡ neighbors m u
neighbors-ensure u k m = elim (Bool-cases (has k m)) [
  | inl old ↦ rw old
  | inr new ↦ rw (new, lookup-insert) (ground (arith, has-lookup k m))
]

-- Edges are only added.
add_dependency_mono :
    (v u task_id dep_id : String) (g : TaskGraph)
    → count v (neighbors g.adjacency_list u)
      ≤ count v (neighbors (add_dependency task_id dep_id g).adjacency_list u)
unfolding add_dependency
add_dependency_mono v u task_id dep_id g =
    let m = ensure dep_id [] g.adjacency_list in
    elim (Bool-cases (contains task_id (neighbors m dep_id))) [
      | inl old ↦ rw old (omega (arith, ap (count v) (neighbors-ensure u dep_id g.adjacency_list)))
      | inr new ↦
          rw (new, lookup-insert)
            (ground (
              arith,
              count-append v (neighbors m dep_id) (task_id ∷ []),
              ap (count v) (neighbors-ensure u dep_id g.adjacency_list),
            ))
    ]

add_dependency-edge :
    (task_id dep_id : String) (g : TaskGraph)
    → 0 < count task_id (neighbors (add_dependency task_id dep_id g).adjacency_list dep_id)
unfolding add_dependency count one_if
add_dependency-edge task_id dep_id g =
    let m = ensure dep_id [] g.adjacency_list in
    elim (Bool-cases (contains task_id (neighbors m dep_id))) [
      | inl old ↦ rw old (count-contains task_id (neighbors m dep_id) old)
      | inr new ↦
          rw (new, lookup-insert)
            (ground (arith, count-append task_id (neighbors m dep_id) (task_id ∷ [])))
    ]

add_dependencies_mono :
    (v u task_id : String) (ds : List String) (g : TaskGraph)
    → count v (neighbors g.adjacency_list u)
      ≤ count v (neighbors (add_dependencies task_id ds g).adjacency_list u)
unfolding add_dependencies
add_dependencies_mono v u task_id [] g = omega arith
add_dependencies_mono v u task_id (d ∷ ds) g = omega (
  arith,
  add_dependency_mono v u task_id d g,
  add_dependencies_mono v u task_id ds (add_dependency task_id d g),
)

add_dependencies-edge :
    (task_id d : String) (ds : List String) (g : TaskGraph)
    → 0 < count d ds
    → 0 < count task_id (neighbors (add_dependencies task_id ds g).adjacency_list d)
unfolding add_dependencies count one_if
add_dependencies-edge task_id d [] g h = absurd (omega arith)
add_dependencies-edge task_id d (e ∷ es) g h = elim (same_id e d) [
  | yes same ↦ rw (← same) (
      omega (
        arith,
        add_dependency-edge task_id e g,
        add_dependencies_mono task_id e task_id es (add_dependency task_id e g),
      ))
  | no other ↦ add_dependencies-edge task_id d es (add_dependency task_id e g) (ground arith)
]

add_task_mono :
    (v u : String) (t : Task) (g : TaskGraph)
    → count v (neighbors g.adjacency_list u) ≤ count v (neighbors (add_task t g).adjacency_list u)
unfolding add_task
add_task_mono v u t g = omega (
  arith,
  ap (count v) (neighbors-ensure u t.id g.adjacency_list),
  add_dependencies_mono v u t.id t.depends_on_task_ids (record {
    tasks = insert t.id t g.tasks;
    adjacency_list = ensure t.id [] g.adjacency_list;
    in_degree = ensure t.id 0 g.in_degree;
  }),
)

add_tasks_mono :
    (v u : String) (ts : List Task) (g : TaskGraph)
    → count v (neighbors g.adjacency_list u) ≤ count v (neighbors (add_tasks ts g).adjacency_list u)
unfolding add_tasks
add_tasks_mono v u [] g = omega arith
add_tasks_mono v u (t ∷ ts) g =
    omega (arith, add_task_mono v u t g, add_tasks_mono v u ts (add_task t g))

-- The graph has an edge to the task from each of its dependencies.
abbrev pub HasEdges : TaskGraph → Task → Type 0
HasEdges g t =
    (d : String) → 0 < count d t.depends_on_task_ids → 0 < count t.id (neighbors g.adjacency_list d)

add_task-HasEdges : (t : Task) (g : TaskGraph) → HasEdges (add_task t g) t
unfolding add_task
add_task-HasEdges t g d h = add_dependencies-edge t.id d t.depends_on_task_ids _ h

pub add_tasks-HasEdges : (ts : List Task) (g : TaskGraph) → All (HasEdges (add_tasks ts g)) ts
unfolding add_tasks
add_tasks-HasEdges [] g = tt
add_tasks-HasEdges (t ∷ ts) g = (
  λ d h. omega (arith, add_task-HasEdges t g d h, add_tasks_mono t.id d ts (add_task t g)),
  add_tasks-HasEdges ts (add_task t g),
)
