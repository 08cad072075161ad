-- ===== src/Missions/Execution/Inv.antt =====
-- The invariant of a mission's execution.
use local_first_se_platform.Base.{
  ℕ, ◌+◌, ◌<◌, String, ◌≡◌, refl, inl, inr, true, false, List, [], ◌∷◌, ◌++◌, arith, if◌then◌else◌,
  Bool-cases, ◌==◌, contains, one_if, count, count-append,
}
use local_first_se_platform.Missions.Plan.{TaskStatus, MissionTask, ids, set_status}
use local_first_se_platform.Missions.ReadyQueue.{all_completed, is_blocked}
use local_first_se_platform.Missions.ReadyQueue.Unlocking.{Knows, BlockedApart, Consistent}
use local_first_se_platform.Missions.Execution.{Execution, without}

-- How often an id stands in the lists of tasks that have been begun.
abbrev pub begun : String → Execution → ℕ
begun v s =
    count v s.running_ids
    + count v s.succeeded_ids
    + count v s.failing_ids
    + count v s.completed_ids
    + count v s.failed_ids

-- `plan_ids` are the ids of the plan, `deps` its dependencies as a function.
pub record Inv (deps : String → List String) (plan_ids : List String) (s : Execution) : Type 0 where
  pub knows : Knows deps s.tasks
  pub same_ids : ids s.tasks ≡ plan_ids
  pub conserved : (v : String) → count v s.pending_ids + begun v s ≡ count v plan_ids
  pub consistent : Consistent deps s.completed_ids s.pending_ids s.queue s.tasks
  pub deps_done : (v : String) → 0 < begun v s → all_completed s.completed_ids (deps v) ≡ true

pub count-without :
    (v t : String) (xs : List String) → count v (without t xs) ≡ (if t == v then 0 else count v xs)
unfolding without count one_if
count-without v t [] = ground arith
count-without v t (x ∷ xs) = ground (arith, count-without v t xs)

pub count-snoc :
    (v t : String) (xs : List String) → count v (xs ++ t ∷ []) ≡ count v xs + one_if (t == v)
unfolding count
count-snoc v t xs = omega (arith, count-append v xs (t ∷ []))

contains_of_append :
    (d t : String) (xs : List String) → contains d xs ≡ true → contains d (xs ++ t ∷ []) ≡ true
contains_of_append d t [] h = cc
contains_of_append d t (x ∷ xs) h = ground (arith, contains_of_append d t xs)

-- Completing one more task keeps dependencies completed.
pub all_completed_mono :
    (t : String) (completed_ids ds : List String)
    → all_completed completed_ids ds ≡ true
    → all_completed (completed_ids ++ t ∷ []) ds ≡ true
all_completed_mono t completed_ids [] h = refl
all_completed_mono t completed_ids (d ∷ ds) h =
    ground (arith, contains_of_append d t completed_ids, all_completed_mono t completed_ids ds)

pub set_status-ids :
    (t : String) (st : TaskStatus) (ts : List MissionTask) → ids (set_status t st ts) ≡ ids ts
unfolding set_status
set_status-ids t st [] = refl
set_status-ids t st (x ∷ xs) = ground (arith, set_status-ids t st xs)

pub set_status-Knows :
    (deps : String → List String) (t : String) (st : TaskStatus) (ts : List MissionTask)
    → Knows deps ts
    → Knows deps (set_status t st ts)
unfolding set_status
set_status-Knows deps t st [] h = tt
set_status-Knows deps t st (x ∷ xs) h = elim (Bool-cases (x.id == t)) [
  | inl same ↦ rw same (h.0, set_status-Knows deps t st xs h.1)
  | inr other ↦ rw other (h.0, set_status-Knows deps t st xs h.1)
]

pub set_status-BlockedApart :
    (t : String) (st : TaskStatus) (pending_ids queue : List String) (ts : List MissionTask)
    → is_blocked st ≡ false
    → BlockedApart pending_ids queue ts
    → BlockedApart pending_ids queue (set_status t st ts)
unfolding set_status
set_status-BlockedApart t st pending_ids queue [] open_status h = tt
set_status-BlockedApart t st pending_ids queue (x ∷ xs) open_status h =
    let rest = set_status-BlockedApart t st pending_ids queue xs open_status h.1 in
    elim (Bool-cases (x.id == t)) [
      | inl same ↦ rw same (λ b. cc, rest)
      | inr other ↦ rw other (h.0, rest)
    ]

pub all_completed-Consistent :
    (deps : String → List String) (t : String) (completed_ids pending_ids queue : List String)
    (ts : List MissionTask)
    → Consistent deps completed_ids pending_ids queue ts
    → Consistent deps (completed_ids ++ t ∷ []) pending_ids queue ts
all_completed-Consistent deps t completed_ids pending_ids queue ts c = record {
  is_ready = record {
    listed = c.is_ready.listed;
    deps_done = λ v h. all_completed_mono t completed_ids (deps v) (c.is_ready.deps_done v h);
  };
  apart = c.apart;
}

-- Popping a task off the queue, and taking it off the pending ids.
pub pop-BlockedApart :
    (t : String) (pending_ids queue : List String) (ts : List MissionTask)
    → BlockedApart pending_ids (t ∷ queue) ts
    → BlockedApart (without t pending_ids) queue ts
unfolding count one_if
pop-BlockedApart t pending_ids queue [] h = tt
pop-BlockedApart t pending_ids queue (x ∷ xs) h = (
  λ b.
      let (waits, apart) = h.0 b in (ground (arith, count-without x.id t pending_ids), omega arith),
  pop-BlockedApart t pending_ids queue xs h.1,
)
