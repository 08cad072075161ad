-- ===== src/Missions/Execution/Reasons.antt =====
-- `unlockReadyTasks` and the start of a plan give each waiting task its reason, and every step
-- keeps it.
use local_first_se_platform.Base.{
  ℕ, ◌≤◌, ◌<◌, String, ◌≡◌, refl, inl, inr, true, false, not, ◌&&◌, List, [], ◌∷◌, ◌++◌, arith,
  if◌then◌else◌, Bool-cases, eq_self, length, length-append, contains, one_if, count, count-append,
  count-contains, All,
}
use local_first_se_platform.Missions.Plan.{
  ready, running, completed, failed, TaskStatus, MissionTask, with_status, ids, set_status,
}
use local_first_se_platform.Missions.ReadyQueue.{
  is_empty, is_blocked, all_completed, unlocks, initialize_from_plan, unlock_ready_tasks,
}
use local_first_se_platform.Missions.ReadyQueue.Unlocking.{IsDistinct}
use local_first_se_platform.Missions.Execution.{
  Execution, without, start, dispatch, settle_success, settle_failure, record_success,
  record_failure, unlock, Step, launches, dispatches, succeeds, fails, records_success,
  records_failure, unlocks_next, Reach, here, next,
}
use local_first_se_platform.Missions.Execution.Inv.{Inv}
use local_first_se_platform.Missions.Execution.Safety.{Reach-Inv, dependencies_of}
use local_first_se_platform.Missions.Execution.Waiting.{
  Held, Waits, Waiting, launch-Waiting, set_status-Held, set_status-Waits,
}

-- `unlockReadyTasks` never takes an id off the queue.
unlock_ready_tasks_mono :
    (v : String) (completed_ids queue newly : List String) (ts : List MissionTask)
    → count v queue ≤ count v (unlock_ready_tasks completed_ids ts queue newly).queue
unfolding unlock_ready_tasks
unlock_ready_tasks_mono v c queue newly [] = omega arith
unlock_ready_tasks_mono v c queue newly (t ∷ ts) =
    elim (Bool-cases (unlocks c t && not (contains t.id queue))) [
      | inl push ↦ rw push (
          omega (
            arith,
            unlock_ready_tasks_mono v c (queue ++ t.id ∷ []) (newly ++ t.id ∷ []) ts,
            count-append v queue (t.id ∷ []),
          ))
      | inr keep ↦ rw keep (unlock_ready_tasks_mono v c queue newly ts)
    ]

-- After it, a pending task outside the queue is blocked and has a dependency that is not completed.
abbrev Stays : List String → List String → List String → MissionTask → Type 0
Stays completed_ids pending_ids final t =
    0 < count t.id pending_ids
    → count t.id final ≡ 0
    → (is_blocked t.status ≡ true) × (all_completed completed_ids t.dependencies ≡ false)

-- An opened task is in the queue that the loop hands on.
opened-queued :
    (c queue : List String) (t : MissionTask)
    → unlocks c t ≡ true
    → 0
      < count t.id (if unlocks c t && not (contains t.id queue) then queue ++ t.id ∷ [] else queue)
unfolding count one_if
opened-queued c queue t opens =
    ground (arith, count-append t.id queue (t.id ∷ []), count-contains t.id queue, eq_self t.id)

stays_closed :
    (c : List String) (t : MissionTask)
    → is_blocked t.status ≡ true
    → unlocks c t ≡ false
    → all_completed c t.dependencies ≡ false
stays_closed c t b h = ground arith

head-Stays :
    (c pending_ids queue final : List String) (t : MissionTask)
    → Held pending_ids queue t
    → ((v : String) → count v queue ≤ count v final)
    → (unlocks c t ≡ true → 0 < count t.id final)
    → Stays c pending_ids final (if unlocks c t then with_status ready t else t)
head-Stays c p queue final t held mono queued = elim (Bool-cases (unlocks c t)) [
  | inl opens ↦ rw opens (λ a b. absurd (let q = queued opens in omega arith))
  | inr stays ↦
      rw stays λ a b. let is = held a (omega (arith, mono t.id)) in (is, stays_closed c t is stays)
]

unlock_ready_tasks-Stays :
    (c pending_ids first queue newly : List String) (ts : List MissionTask)
    → ((v : String) → count v first ≤ count v queue)
    → All (Held pending_ids first) ts
    → All
        (Stays c pending_ids (unlock_ready_tasks c ts queue newly).queue)
        (unlock_ready_tasks c ts queue newly).tasks
unfolding unlock_ready_tasks
unlock_ready_tasks-Stays c p first queue newly [] grows h = tt
unlock_ready_tasks-Stays c p first queue newly (t ∷ ts) grows h =
    let pushes = unlocks c t && not (contains t.id queue) in
    let queue' = if pushes then queue ++ t.id ∷ [] else queue in
    let newly' = if pushes then newly ++ t.id ∷ [] else newly in
    let grows' : (v : String) → count v first ≤ count v queue' =
      λ v. ground (arith, grows v, count-append v queue (t.id ∷ [])) in
    let mono : (v : String)
        → count v first ≤ count v (unlock_ready_tasks c ts queue' newly').queue =
      λ v. omega (arith, grows' v, unlock_ready_tasks_mono v c queue' newly' ts) in
    (
      head-Stays c p first _ t h.0 mono (λ opens.
          omega (
            arith,
            opened-queued c queue t opens,
            unlock_ready_tasks_mono t.id c queue' newly' ts,
          )),
      unlock_ready_tasks-Stays c p first queue' newly' ts grows' h.1,
    )

Stays-Held :
    (c pending_ids final : List String) (ts : List MissionTask)
    → All (Stays c pending_ids final) ts
    → All (Held pending_ids final) ts
Stays-Held c p final [] h = tt
Stays-Held c p final (t ∷ ts) h = (λ a b. (h.0 a b).0, Stays-Held c p final ts h.1)

Stays-Waits :
    (c u pending_ids final : List String) (ts : List MissionTask)
    → All (Stays c pending_ids final) ts
    → All (Waits c u pending_ids final) ts
Stays-Waits c u p final [] h = tt
Stays-Waits c u p final (t ∷ ts) h = (λ a b e. (h.0 a b).1, Stays-Waits c u p final ts h.1)

unlock-Waiting : (t : String) (s : Execution) → Waiting s → Waiting (unlock t s)
unfolding unlock
unlock-Waiting t s w =
    let all =
      unlock_ready_tasks-Stays s.completed_ids s.pending_ids s.queue s.queue [] s.tasks
        (λ v. omega arith) w.held in
    record {
      held = Stays-Held s.completed_ids s.pending_ids _ _ all;
      waits = Stays-Waits s.completed_ids (without t s.unlocking_ids) s.pending_ids _ _ all;
    }

-- While a hand-off is running nothing is said of the dependencies.
busy-Waits :
    (c u pending_ids queue : List String) (ts : List MissionTask)
    → 0 < length u
    → All (Waits c u pending_ids queue) ts
busy-Waits c u p q [] busy = tt
busy-Waits c u p q (t ∷ ts) busy = (λ a b e. absurd (omega arith), busy-Waits c u p q ts busy)

some_dependency_open : (ds : List String) → is_empty ds ≡ false → all_completed [] ds ≡ false
some_dependency_open [] h = cc
some_dependency_open (d ∷ ds) h = refl

shrink-Stays :
    (c pending_ids queue : List String) (v : String) (ts : List MissionTask)
    → All (Stays c pending_ids queue) ts
    → All (Stays c pending_ids (v ∷ queue)) ts
unfolding count
shrink-Stays c p queue v [] h = tt
shrink-Stays c p queue v (t ∷ ts) h = (λ a b. h.0 a (omega arith), shrink-Stays c p queue v ts h.1)

-- At the start a task that is not in the queue has a dependency, and nothing is completed.
start-Stays :
    (pending_ids : List String) (ts : List MissionTask)
    → All (Stays [] pending_ids (initialize_from_plan ts).1) (initialize_from_plan ts).0
unfolding initialize_from_plan count one_if
start-Stays p [] = tt
start-Stays p (t ∷ ts) =
    let rest = start-Stays p ts in
    elim (Bool-cases (is_empty t.dependencies)) [
      | inl free ↦ rw free (
        λ a b. absurd (let self = eq_self t.id in ground arith),
        shrink-Stays [] p (initialize_from_plan ts).1 t.id (initialize_from_plan ts).0 rest,
      )
      | inr waits ↦ rw waits (λ a b. (refl, some_dependency_open t.dependencies waits), rest)
    ]

start-Waiting : (plan_tasks : List MissionTask) → Waiting (start plan_tasks)
unfolding start
start-Waiting plan_tasks =
    let all = start-Stays (ids plan_tasks) plan_tasks in
    record {
      held = Stays-Held [] (ids plan_tasks) _ _ all;
      waits = Stays-Waits [] [] (ids plan_tasks) _ _ all;
    }

-- A task that has been begun is not pending.
begun-gone :
    (deps : String → List String) (plan_ids : List String) (t : String) (s : Execution)
    → IsDistinct plan_ids
    → Inv deps plan_ids s
    → 0 < count t s.running_ids
    → count t s.pending_ids ≡ 0
begun-gone deps plan_ids t s distinct inv h = omega (arith, inv.conserved t, distinct t)

settle-Waiting :
    (t : String) (st : TaskStatus) (s u : Execution)
    → u ≡ record s {
      tasks = set_status t st s.tasks;
      running_ids = u.running_ids;
      succeeded_ids = u.succeeded_ids;
      failing_ids = u.failing_ids;
    }
    → count t s.pending_ids ≡ 0
    → Waiting s
    → Waiting u
settle-Waiting t st s u e gone w = rw e (record {
  held = set_status-Held t st s.pending_ids s.queue s.tasks gone w.held;
  waits =
      set_status-Waits t st s.completed_ids s.unlocking_ids s.pending_ids s.queue s.tasks w.waits;
})

module _ (deps : String → List String) (plan_ids : List String)
    (distinct : IsDistinct plan_ids) where
  Step-Waiting :
      (max_parallel : ℕ) {s u : Execution}
      → Inv deps plan_ids s
      → Waiting s
      → Step max_parallel s u
      → Waiting u
  unfolding dispatch settle_success settle_failure record_success record_failure
  Step-Waiting m {s} inv w (launches idle) = launch-Waiting m s w
  Step-Waiting m {s} inv w (dispatches t h) =
      settle-Waiting t running s (dispatch t s) refl (begun-gone deps plan_ids t s distinct inv h) w
  Step-Waiting m {s} inv w (succeeds t h) =
      settle-Waiting t completed s (settle_success t s) refl
        (begun-gone deps plan_ids t s distinct inv h) w
  Step-Waiting m {s} inv w (fails t h) =
      settle-Waiting t failed s (settle_failure t s) refl
        (begun-gone deps plan_ids t s distinct inv h) w
  Step-Waiting m {s} inv w (records_success t h) = record {
    held = w.held;
    waits =
        busy-Waits _ _ s.pending_ids s.queue s.tasks
          (omega (arith, length-append s.unlocking_ids (t ∷ [])));
  }
  Step-Waiting m {s} inv w (records_failure t h) = record { held = w.held; waits = w.waits }
  Step-Waiting m {s} inv w (unlocks_next t h) = unlock-Waiting t s w

pub Reach-Waiting :
    (max_parallel : ℕ) (plan_tasks : List MissionTask) {s : Execution}
    → IsDistinct (ids plan_tasks)
    → Reach max_parallel plan_tasks s
    → Waiting s
Reach-Waiting m plan_tasks distinct here = start-Waiting plan_tasks
Reach-Waiting m plan_tasks distinct (next r st) =
    Step-Waiting (dependencies_of plan_tasks) (ids plan_tasks) distinct m
      (Reach-Inv m plan_tasks distinct r) (Reach-Waiting m plan_tasks distinct r) st
