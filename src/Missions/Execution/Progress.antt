-- ===== src/Missions/Execution/Progress.antt =====
-- When a mission can go on, and what is left of it when it cannot.
use local_first_se_platform.Base.{
  ℕ, zero, suc, ◌-◌, ◌<◌, String, ◌≡◌, refl, ap, ◌⊎◌, inl, inr, true, false, List, [], ◌∷◌, arith,
  Bool-cases, same_id, eq_self, length, contains, one_if, count, All,
}
use local_first_se_platform.Missions.Plan.{MissionTask, ids}
use local_first_se_platform.Missions.ReadyQueue.{all_completed}
use local_first_se_platform.Missions.ReadyQueue.Unlocking.{Knows, IsDistinct}
use local_first_se_platform.Missions.Execution.{
  Execution, take_batch, launch, IsIdle, Reach, all_done,
}
use local_first_se_platform.Missions.Execution.Inv.{Inv}
use local_first_se_platform.Missions.Execution.Launch.{begin_all-running}
use local_first_se_platform.Missions.Execution.Safety.{Reach-Inv, dependencies_of}
use local_first_se_platform.Missions.Execution.Completion.{length_of_counts, length-ids}
use local_first_se_platform.Missions.Execution.Waiting.{Waits, Waiting}
use local_first_se_platform.Missions.Execution.Reasons.{Reach-Waiting}

-- Why a task can never start: along its dependencies there is a failed task, or an id that no task
-- of the plan has.
pub data Cut (deps : String → List String) (plan_ids failed_ids : List String)
    : String → Type 0 where
  after_failed :
      (v d : String)
      → contains d (deps v) ≡ true
      → 0 < count d failed_ids
      → Cut deps plan_ids failed_ids v
  on_missing :
      (v d : String)
      → contains d (deps v) ≡ true
      → count d plan_ids ≡ 0
      → Cut deps plan_ids failed_ids v
  above :
      (v d : String)
      → contains d (deps v) ≡ true
      → Cut deps plan_ids failed_ids d
      → Cut deps plan_ids failed_ids v

-- `rank` shows that the dependencies have no cycle.
abbrev pub Ranked : (String → List String) → (String → ℕ) → Type 0
Ranked deps rank = (v d : String) → contains d (deps v) ≡ true → rank d < rank v

Waits-at :
    (deps : String → List String) (c u pending_ids queue : List String) (v : String)
    (ts : List MissionTask)
    → Knows deps ts
    → All (Waits c u pending_ids queue) ts
    → 0 < count v (ids ts)
    → 0 < count v pending_ids
    → count v queue ≡ 0
    → length u ≡ 0
    → all_completed c (deps v) ≡ false
unfolding count one_if
Waits-at deps c u p q v [] knows w listed a b e = absurd (omega arith)
Waits-at deps c u p q v (t ∷ ts) knows w listed a b e = elim (same_id t.id v) [
  | yes same ↦ rw (← same, knows.0) (w.0 (rw same a) (rw same b) e)
  | no other ↦ Waits-at deps c u p q v ts knows.1 w.1 (ground arith) a b e
]

open_dependency :
    (c ds : List String)
    → all_completed c ds ≡ false
    → (d : String) × (contains d ds ≡ true) × (contains d c ≡ false)
open_dependency c [] h = cc
open_dependency c (d ∷ ds) h = elim (Bool-cases (contains d c)) [
  | inl done ↦
      let (e, listed, not_done) = open_dependency c ds (ground arith) in (e, ground arith, not_done)
  | inr not_done ↦ (d, ground (arith, eq_self d), not_done)
]

count_of_absent : (v : String) (xs : List String) → contains v xs ≡ false → count v xs ≡ 0
unfolding count one_if
count_of_absent v [] h = refl
count_of_absent v (x ∷ xs) h = ground (arith, count_of_absent v xs)

module _ (deps : String → List String) (plan_ids : List String) (s : Execution)
    (inv : Inv deps plan_ids s) (w : Waiting s) (idle : IsIdle s) (drained : s.queue ≡ []) where
  pending_open :
      (v : String) → 0 < count v s.pending_ids → all_completed s.completed_ids (deps v) ≡ false
  unfolding count
  pending_open v h =
      Waits-at deps s.completed_ids s.unlocking_ids s.pending_ids s.queue v s.tasks inv.knows
        w.waits (omega (arith, inv.conserved v, ap (count v) inv.same_ids)) h (ap (count v) drained)
        (ap length idle.no_unlocking)

  -- A dependency that is not completed is missing, failed or pending itself.
  open-cases :
      (d : String)
      → contains d s.completed_ids ≡ false
      → (count d plan_ids ≡ 0) ⊎ ((0 < count d s.failed_ids) ⊎ (0 < count d s.pending_ids))
  unfolding count
  open-cases d h = grind (
    arith,
    count_of_absent d s.completed_ids,
    inv.conserved d,
    ap (count d) idle.no_running,
    ap (count d) idle.no_succeeded,
    ap (count d) idle.no_failing,
  )

  pending-Cut :
      (rank : String → ℕ) (fuel : ℕ) (v : String)
      → Ranked deps rank
      → rank v < fuel
      → 0 < count v s.pending_ids
      → Cut deps plan_ids s.failed_ids v
  pending-Cut rank zero v ranked below h = absurd (omega arith)
  pending-Cut rank (suc fuel) v ranked below h =
      let (d, listed, not_done) = open_dependency s.completed_ids (deps v) (pending_open v h) in
      elim (open-cases d not_done) [
        | inl missing ↦ on_missing v d listed missing
        | inr (inl broken) ↦ after_failed v d listed broken
        | inr (inr waits) ↦
            above v d listed
              (pending-Cut rank fuel d ranked (omega (arith, ranked v d listed)) waits)
      ]

-- In a plan with distinct ids and no cycle: when every callback has returned and the queue is
-- empty, at which point the loop breaks off, each task that is still pending is cut off:
-- along its dependencies there is a task that failed, or an id that is not in the plan.
pub exit_cuts :
    (max_parallel : ℕ) (plan_tasks : List MissionTask) {s : Execution} (rank : String → ℕ)
    (v : String)
    → IsDistinct (ids plan_tasks)
    → Ranked (dependencies_of plan_tasks) rank
    → Reach max_parallel plan_tasks s
    → IsIdle s
    → s.queue ≡ []
    → 0 < count v s.pending_ids
    → Cut (dependencies_of plan_tasks) (ids plan_tasks) s.failed_ids v
exit_cuts m plan_tasks {s} rank v distinct ranked r idle drained h =
    pending-Cut (dependencies_of plan_tasks) (ids plan_tasks) s (Reach-Inv m plan_tasks distinct r)
      (Reach-Waiting m plan_tasks distinct r) idle drained rank (suc (rank v)) v ranked
      (omega arith) h

-- A plan whose dependencies are all tasks of the plan.
abbrev pub IsClosed : (String → List String) → List String → Type 0
IsClosed deps plan_ids = (v d : String) → contains d (deps v) ≡ true → 0 < count d plan_ids

not-Cut :
    (deps : String → List String) (plan_ids failed_ids : List String) (v : String)
    → IsClosed deps plan_ids
    → failed_ids ≡ []
    → Cut deps plan_ids failed_ids v
    → ⊥
unfolding count
not-Cut deps plan_ids failed_ids v closed none_failed (after_failed _ d listed broken) =
    omega (arith, ap (count d) none_failed)
not-Cut deps plan_ids failed_ids v closed none_failed (on_missing _ d listed missing) =
    omega (arith, closed v d listed)
not-Cut deps plan_ids failed_ids v closed none_failed (above _ d listed c) =
    not-Cut deps plan_ids failed_ids d closed none_failed c

-- With nothing pending, running or failed, every task is completed.
all_done_of_nothing_left :
    (deps : String → List String) (plan_ids : List String) (s : Execution)
    → Inv deps plan_ids s
    → IsIdle s
    → s.failed_ids ≡ []
    → s.pending_ids ≡ []
    → all_done s ≡ true
unfolding all_done count
all_done_of_nothing_left deps plan_ids s inv idle none_failed none_pending =
    let same : (v : String) → count v s.completed_ids ≡ count v plan_ids = λ v. omega (
      arith,
      inv.conserved v,
      ap (count v) idle.no_running,
      ap (count v) idle.no_succeeded,
      ap (count v) idle.no_failing,
      ap (count v) none_failed,
      ap (count v) none_pending,
    ) in
    ground (
      arith,
      length_of_counts s.completed_ids plan_ids same,
      ap length inv.same_ids,
      length-ids s.tasks,
    )

take_batch-fills :
    (room : ℕ) (queue : List String)
    → 0 < room
    → 0 < length queue
    → 0 < length (take_batch room queue).0
unfolding take_batch
take_batch-fills zero queue h k = absurd (omega arith)
take_batch-fills (suc room) [] h k = absurd (omega arith)
take_batch-fills (suc room) (x ∷ xs) h k = omega arith

launch-fills :
    (max_parallel : ℕ) (s : Execution)
    → 0 < max_parallel
    → s.running_ids ≡ []
    → 0 < length s.queue
    → 0 < length (launch max_parallel s).running_ids
unfolding launch
launch-fills m s room none_running queued =
    let free : 0 < m - length s.running_ids = omega (arith, ap length none_running) in
    let (batch, rest) = take_batch (m - length s.running_ids) s.queue in
    omega (
      arith,
      begin_all-running batch (record s { queue = rest }),
      take_batch-fills (m - length s.running_ids) s.queue free queued,
    )

-- A mission does not get stuck: in a plan with distinct ids, dependencies inside the plan and no
-- cycle, whenever every callback has returned, no task has failed and not every task is completed,
-- the next batch starts at least one task, if `maxParallelWorkers` is not 0.
pub no_failure_no_deadlock :
    (max_parallel : ℕ) (plan_tasks : List MissionTask) {s : Execution} (rank : String → ℕ)
    → 0 < max_parallel
    → IsDistinct (ids plan_tasks)
    → IsClosed (dependencies_of plan_tasks) (ids plan_tasks)
    → Ranked (dependencies_of plan_tasks) rank
    → Reach max_parallel plan_tasks s
    → IsIdle s
    → s.failed_ids ≡ []
    → all_done s ≡ false
    → 0 < length (launch max_parallel s).running_ids
unfolding count one_if
no_failure_no_deadlock m plan_tasks {s} rank room distinct closed ranked r idle none_failed
      not_all =
    launch-fills m s room idle.no_running (queued s.queue s.pending_ids refl refl)
  where
    queued : (q p : List String) → s.queue ≡ q → s.pending_ids ≡ p → 0 < length s.queue
    queued (x ∷ xs) p e f = omega (arith, ap length e)
    queued [] [] e f = absurd (
        let done =
          all_done_of_nothing_left (dependencies_of plan_tasks) (ids plan_tasks) s
            (Reach-Inv m plan_tasks distinct r) idle none_failed f in
        cc)
    queued [] (v ∷ vs) e f = absurd (
        not-Cut (dependencies_of plan_tasks) (ids plan_tasks) s.failed_ids v closed none_failed (
          exit_cuts m plan_tasks rank v distinct ranked r idle e
            (omega (arith, ap (count v) f, ap one_if (eq_self v)))))
