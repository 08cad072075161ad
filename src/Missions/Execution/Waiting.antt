-- ===== src/Missions/Execution/Waiting.antt =====
-- Why a pending task is not in the queue: it is blocked, and once the last `unlockReadyTasks` has
-- run one of its dependencies is not completed.
use local_first_se_platform.Base.{
  ℕ, ◌-◌, ◌<◌, String, ◌≡◌, sym, subst, inl, inr, true, false, List, [], ◌∷◌, ◌++◌, arith,
  Bool-cases, ◌==◌, length, one_if, count, All,
}
use local_first_se_platform.Missions.Plan.{TaskStatus, MissionTask, set_status}
use local_first_se_platform.Missions.ReadyQueue.{is_blocked, all_completed}
use local_first_se_platform.Missions.Execution.{Execution, without, take_batch, begin_all, launch}
use local_first_se_platform.Missions.Execution.Inv.{count-without}
use local_first_se_platform.Missions.Execution.Launch.{take_batch-append}

-- A pending task outside the queue is blocked.
abbrev pub Held : List String → List String → MissionTask → Type 0
Held pending_ids queue t =
    0 < count t.id pending_ids → count t.id queue ≡ 0 → is_blocked t.status ≡ true

-- A pending task outside the queue waits for a dependency, unless some hand-off is still running.
abbrev pub Waits : List String → List String → List String → List String → MissionTask → Type 0
Waits completed_ids unlocking_ids pending_ids queue t =
    0 < count t.id pending_ids
    → count t.id queue ≡ 0
    → length unlocking_ids ≡ 0
    → all_completed completed_ids t.dependencies ≡ false

pub record Waiting (s : Execution) : Type 0 where
  pub held : All (Held s.pending_ids s.queue) s.tasks
  pub waits : All (Waits s.completed_ids s.unlocking_ids s.pending_ids s.queue) s.tasks

-- Fewer pending ids outside the queue leave fewer tasks to speak of.
shrink-Held :
    (pending_ids pending_ids' queue queue' : List String) (ts : List MissionTask)
    → ((v : String)
        → 0 < count v pending_ids'
        → count v queue' ≡ 0
        → (0 < count v pending_ids) × (count v queue ≡ 0))
    → All (Held pending_ids queue) ts
    → All (Held pending_ids' queue') ts
shrink-Held p p' q q' [] fewer h = tt
shrink-Held p p' q q' (t ∷ ts) fewer h =
    (λ a b. let (c, d) = fewer t.id a b in h.0 c d, shrink-Held p p' q q' ts fewer h.1)

shrink-Waits :
    (c u pending_ids pending_ids' queue queue' : List String) (ts : List MissionTask)
    → ((v : String)
        → 0 < count v pending_ids'
        → count v queue' ≡ 0
        → (0 < count v pending_ids) × (count v queue ≡ 0))
    → All (Waits c u pending_ids queue) ts
    → All (Waits c u pending_ids' queue') ts
shrink-Waits c u p p' q q' [] fewer h = tt
shrink-Waits c u p p' q q' (t ∷ ts) fewer h =
    (λ a b. let (x, y) = fewer t.id a b in h.0 x y, shrink-Waits c u p p' q q' ts fewer h.1)

-- What begins a task only takes it off both lists.
begin_all-Waiting :
    (ts rest : List String) (s : Execution)
    → Waiting (record s { queue = ts ++ rest })
    → Waiting (begin_all ts (record s { queue = rest }))
unfolding begin_all count one_if
begin_all-Waiting [] rest s w = w
begin_all-Waiting (t ∷ ts) rest s w =
    let fewer : (v : String)
        → 0 < count v (without t s.pending_ids)
        → count v (ts ++ rest) ≡ 0
        → (0 < count v s.pending_ids) × (count v (t ∷ ts ++ rest) ≡ 0) =
      λ v a b. ground (arith, count-without v t s.pending_ids) in
    begin_all-Waiting ts rest
      (record s { pending_ids = without t s.pending_ids; running_ids = s.running_ids ++ t ∷ [] })
      (record {
        held = shrink-Held s.pending_ids _ (t ∷ ts ++ rest) _ s.tasks fewer w.held;
        waits =
            shrink-Waits s.completed_ids s.unlocking_ids s.pending_ids _ (t ∷ ts ++ rest) _ s.tasks
              fewer w.waits;
      })

pub launch-Waiting :
    (max_parallel : ℕ) (s : Execution) → Waiting s → Waiting (launch max_parallel s)
unfolding launch
launch-Waiting max_parallel s w =
    let room = max_parallel - length s.running_ids in
    let (batch, rest) = take_batch room s.queue in
    begin_all-Waiting batch rest s
      (subst (λ q. Waiting (record s { queue = q })) (sym (take_batch-append room s.queue)) w)

gone_is_not_pending :
    (v t : String) (pending_ids : List String)
    → (v == t) ≡ true
    → count t pending_ids ≡ 0
    → 0 < count v pending_ids
    → ⊥
gone_is_not_pending v t p same gone h = ground arith

-- Setting the status of a task that is not pending.
pub set_status-Held :
    (t : String) (st : TaskStatus) (pending_ids queue : List String) (ts : List MissionTask)
    → count t pending_ids ≡ 0
    → All (Held pending_ids queue) ts
    → All (Held pending_ids queue) (set_status t st ts)
unfolding set_status
set_status-Held t st p q [] begun_already h = tt
set_status-Held t st p q (x ∷ xs) begun_already h =
    let rest = set_status-Held t st p q xs begun_already h.1 in
    elim (Bool-cases (x.id == t)) [
      | inl same ↦ rw same (λ a b. absurd (gone_is_not_pending x.id t p same begun_already a), rest)
      | inr other ↦ rw other (h.0, rest)
    ]

pub set_status-Waits :
    (t : String) (st : TaskStatus) (c u pending_ids queue : List String) (ts : List MissionTask)
    → All (Waits c u pending_ids queue) ts
    → All (Waits c u pending_ids queue) (set_status t st ts)
unfolding set_status
set_status-Waits t st c u p q [] h = tt
set_status-Waits t st c u p q (x ∷ xs) h =
    let rest = set_status-Waits t st c u p q xs h.1 in
    elim (Bool-cases (x.id == t)) [
      | inl same ↦ rw same (h.0, rest)
      | inr other ↦ rw other (h.0, rest)
    ]
