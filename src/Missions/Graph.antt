-- ===== src/Missions/Graph.antt =====
-- src/v2/application/missions/task_graph.ts, and the `Task` of
-- src/v2/domain/missions/mission_models.ts.
mod Tests
pub mod Counting
pub mod Building
pub mod Keys
pub mod Kahn
use local_first_se_platform.Base.{
  ℕ, zero, suc, ◌+◌, String, Bool, true, false, not, ◌&&◌, Option, none, some, List, [], ◌∷◌, ◌++◌,
  nat_eq, if◌then◌else◌, length, every, contains, Dict, lookup, insert, has,
}
use local_first_se_platform.Base.{or_else, ℤ, pos, negsuc, pred_ℤ, is_zero}

pub data TaskStatus : Type 0 where
  backlog ready in_progress review completed failed blocked : TaskStatus

pub data Priority : Type 0 where
  p0 p1 p2 : Priority

pub record Task : Type 0 where
  pub id : String
  pub mission_id : String
  pub feature_id : Option String
  pub title : String
  pub objective : String
  pub target_files : List String
  pub required_capabilities : List String
  pub priority : Priority
  pub status : TaskStatus
  pub assigned_worker_id : Option String
  pub depends_on_task_ids : List String
  pub retry_count : ℕ

pub record ExecutionBatch : Type 0 where
  pub batch_number : ℕ
  pub task_ids : List String

-- The out-edges of a task lead to the tasks that depend on it.
pub record TaskGraph : Type 0 where
  pub tasks : Dict Task
  pub adjacency_list : Dict (List String)
  pub in_degree : Dict ℕ

abbrev pub empty_graph : TaskGraph
empty_graph = record { tasks = []; adjacency_list = []; in_degree = [] }

abbrev pub neighbors : Dict (List String) → String → List String
neighbors adjacency id = or_else (lookup id adjacency) []

-- `if (!map.has(k)) map.set(k, v)`
abbrev pub ensure {ℓ} : {V : Type ℓ} → String → V → Dict V → Dict V
ensure k v m = if has k m then m else insert k v m

unfoldable pub add_dependency : String → String → TaskGraph → TaskGraph
add_dependency task_id dep_id g =
    let adjacency = ensure dep_id [] g.adjacency_list in
    let outs = neighbors adjacency dep_id in
    if contains task_id outs then record g { adjacency_list = adjacency } else record g {
      adjacency_list = insert dep_id (outs ++ task_id ∷ []) adjacency;
      in_degree = insert task_id (or_else (lookup task_id g.in_degree) 0 + 1) g.in_degree;
    }

unfoldable pub add_dependencies : String → List String → TaskGraph → TaskGraph
add_dependencies task_id [] g = g
add_dependencies task_id (d ∷ ds) g = add_dependencies task_id ds (add_dependency task_id d g)

unfoldable pub add_task : Task → TaskGraph → TaskGraph
add_task task g = add_dependencies task.id task.depends_on_task_ids (record {
  tasks = insert task.id task g.tasks;
  adjacency_list = ensure task.id [] g.adjacency_list;
  in_degree = ensure task.id 0 g.in_degree;
})

-- `new Map(this.inDegree)`: the copy is decremented, so its counters are signed.
unfoldable pub copy_degrees : Dict ℕ → Dict ℤ
copy_degrees [] = []
copy_degrees ((k, n) ∷ m) = (k, pos n) ∷ copy_degrees m

-- The ids whose counter is 0, in the map's order.
unfoldable pub zero_ids : Dict ℤ → List String
zero_ids [] = []
zero_ids ((k, z) ∷ m) = if is_zero z then k ∷ zero_ids m else zero_ids m

-- `(tempInDegree.get(neighbor) || 0) - 1`
abbrev pub decremented : String → Dict ℤ → ℤ
decremented id temp = pred_ℤ (or_else (lookup id temp) (pos 0))

-- The loop over the neighbors of one task: counters that reach 0 are appended to `queue`.
unfoldable pub relax : List String → Dict ℤ → List String → Dict ℤ × List String
relax [] temp queue = (temp, queue)
relax (n ∷ ns) temp queue =
    relax ns (insert n (decremented n temp) temp)
      (if is_zero (decremented n temp) then queue ++ n ∷ [] else queue)

module _ (adjacency : Dict (List String)) where
  -- The `while` loop of `detectCycle`, with fuel: `none` means that the fuel ran out.
  unfoldable pub drain : ℕ → Dict ℤ → List String → ℕ → Option ℕ
  drain fuel temp [] processed = some processed
  drain zero temp (q ∷ qs) processed = none
  drain (suc fuel) temp (q ∷ qs) processed =
      let (temp', queue) = relax (neighbors adjacency q) temp qs in
      drain fuel temp' queue (processed + 1)

  -- The loop over the tasks of one batch.
  unfoldable pub relax_batch : List String → Dict ℤ → List String → Dict ℤ × List String
  relax_batch [] temp next = (temp, next)
  relax_batch (x ∷ xs) temp next =
      let (temp', next') = relax (neighbors adjacency x) temp next in relax_batch xs temp' next'

  -- The `while` loop of `getExecutionBatches`.
  unfoldable pub level : ℕ → ℕ → Dict ℤ → List String → Option (List ExecutionBatch)
  level fuel num temp [] = some []
  level zero num temp (x ∷ xs) = none
  level (suc fuel) num temp (x ∷ xs) =
      let (temp', next) = relax_batch (x ∷ xs) temp [] in
      elim (level fuel (num + 1) temp' next) [
        | none ↦ none
        | some rest ↦ some (record { batch_number = num; task_ids = x ∷ xs } ∷ rest)
      ]

-- Each id with a counter enters the queue at most once, so this is enough.
abbrev pub enough_fuel : TaskGraph → ℕ
enough_fuel g = length g.in_degree

unfoldable pub detect_cycle : TaskGraph → Option Bool
detect_cycle g =
    let temp = copy_degrees g.in_degree in
    elim (drain g.adjacency_list (enough_fuel g) temp (zero_ids temp) 0) [
      | none ↦ none
      | some processed ↦ some (not (nat_eq processed (length g.tasks)))
    ]

pub data Batches : Type 0 where
  batches : List ExecutionBatch → Batches
  cyclic_error : Batches
  out_of_fuel : Batches

unfoldable pub get_execution_batches : TaskGraph → Batches
get_execution_batches g =
    let temp = copy_degrees g.in_degree in
    elim (detect_cycle g) [
      | none ↦ out_of_fuel
      | some true ↦ cyclic_error
      | some false ↦ elim (level g.adjacency_list (enough_fuel g) 1 temp (zero_ids temp)) [
        | none ↦ out_of_fuel
        | some bs ↦ batches bs
      ]
    ]

abbrev pub is_waiting : TaskStatus → Bool
is_waiting backlog = true
is_waiting ready = true
is_waiting _ = false

abbrev pub is_completed : Option Task → Bool
is_completed (some t) = elim t.status [ completed ↦ true | _ ↦ false ]
is_completed none = false

abbrev pub is_ready : Dict Task → Task → Bool
is_ready tasks t =
    is_waiting t.status && every (λ d. is_completed (lookup d tasks)) t.depends_on_task_ids

-- `getReadyTasks` marks the tasks that it returns, while it walks the map. A mark leaves the tasks
-- that are completed as they are, so the tests can read the old map.
pub mark_ready : Dict Task → Dict Task → Dict Task × List Task
mark_ready all_tasks [] = ([], [])
mark_ready all_tasks ((k, t) ∷ m) =
    let (marked, found) = mark_ready all_tasks m in
    let t' = record t { status = ready } in
    if is_ready all_tasks t then ((k, t') ∷ marked, t' ∷ found) else ((k, t) ∷ marked, found)

unfoldable pub get_ready_tasks : TaskGraph → TaskGraph × List Task
unfolding mark_ready
get_ready_tasks g =
    let (marked, found) = mark_ready g.tasks g.tasks in (record g { tasks = marked }, found)
