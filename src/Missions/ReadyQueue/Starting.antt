-- ===== src/Missions/ReadyQueue/Starting.antt =====
-- What `initializeFromPlan` establishes.
use local_first_se_platform.Base.{
  ◌≤◌, ◌<◌, String, ◌≡◌, refl, ap, ◌∙◌, inl, inr, true, List, [], ◌∷◌, arith, Bool-cases, same_id,
  one_if, count,
}
use local_first_se_platform.Missions.Plan.{MissionTask, ids}
use local_first_se_platform.Missions.ReadyQueue.{is_empty, all_completed, initialize_from_plan}
use local_first_se_platform.Missions.ReadyQueue.Unlocking.{
  Knows, BlockedApart, IsDistinct, Consistent,
}

initialize_from_plan-count :
    (v : String) (ts : List MissionTask) → count v (initialize_from_plan ts).1 ≤ count v (ids ts)
unfolding initialize_from_plan count one_if
initialize_from_plan-count v [] = omega arith
initialize_from_plan-count v (t ∷ ts) = ground (arith, initialize_from_plan-count v ts)

every_of_empty :
    (completed_ids deps : List String)
    → is_empty deps ≡ true
    → all_completed completed_ids deps ≡ true
every_of_empty completed_ids [] h = refl
every_of_empty completed_ids (d ∷ ds) h = cc

initialize_from_plan-deps :
    (deps : String → List String) (v : String) (ts : List MissionTask)
    → Knows deps ts
    → 0 < count v (initialize_from_plan ts).1
    → all_completed [] (deps v) ≡ true
unfolding initialize_from_plan count one_if
initialize_from_plan-deps deps v [] knows h = absurd (omega arith)
initialize_from_plan-deps deps v (t ∷ ts) knows h = elim (Bool-cases (is_empty t.dependencies)) [
  | inl free ↦ elim (same_id t.id v) [
    | yes e ↦ rw (← e, knows.0) (every_of_empty [] t.dependencies free)
    | no other ↦ initialize_from_plan-deps deps v ts knows.1 (ground arith)
  ]
  | inr waits ↦ initialize_from_plan-deps deps v ts knows.1 (ground arith)
]

cons-BlockedApart :
    (pending_ids queue : List String) (v : String) (ts : List MissionTask)
    → count v (ids ts) ≡ 0
    → BlockedApart pending_ids queue ts
    → BlockedApart pending_ids (v ∷ queue) ts
unfolding count one_if
cons-BlockedApart pending_ids queue v [] fresh h = tt
cons-BlockedApart pending_ids queue v (t ∷ ts) fresh h = (
  λ b. let (waits, apart) = h.0 b in (waits, ground arith),
  cons-BlockedApart pending_ids queue v ts (omega arith) h.1,
)

pub initialize_from_plan-ids : (ts : List MissionTask) → ids (initialize_from_plan ts).0 ≡ ids ts
unfolding initialize_from_plan
initialize_from_plan-ids [] = refl
initialize_from_plan-ids (t ∷ ts) = ground (arith, initialize_from_plan-ids ts)

pub initialize_from_plan-Knows :
    (deps : String → List String) (ts : List MissionTask)
    → Knows deps ts
    → Knows deps (initialize_from_plan ts).0
unfolding initialize_from_plan
initialize_from_plan-Knows deps [] knows = tt
initialize_from_plan-Knows deps (t ∷ ts) knows =
    let rest = initialize_from_plan-Knows deps ts knows.1 in
    elim (Bool-cases (is_empty t.dependencies)) [
      | inl free ↦ rw free (knows.0, rest)
      | inr waits ↦ rw waits (knows.0, rest)
    ]

initialize_from_plan-BlockedApart :
    (pending_ids : List String) (ts : List MissionTask)
    → IsDistinct (ids ts)
    → ((v : String) → count v (ids ts) ≤ count v pending_ids)
    → BlockedApart pending_ids (initialize_from_plan ts).1 (initialize_from_plan ts).0
unfolding initialize_from_plan count one_if
initialize_from_plan-BlockedApart pending_ids [] distinct within = tt
initialize_from_plan-BlockedApart pending_ids (t ∷ ts) distinct within =
    let (tasks, queue) = initialize_from_plan ts in
    let fresh : count t.id (ids ts) ≡ 0 = ground (arith, distinct t.id) in
    let rest =
      initialize_from_plan-BlockedApart pending_ids ts (λ v. omega (arith, distinct v))
        (λ v. omega (arith, within v)) in
    elim (Bool-cases (is_empty t.dependencies)) [
      | inl free ↦ rw free (
        λ b. cc,
        cons-BlockedApart pending_ids queue t.id tasks
            (ap (count t.id) (initialize_from_plan-ids ts) ∙ fresh) rest,
      )
      | inr waits ↦ rw waits (
        λ b. (ground (arith, within t.id), omega (arith, initialize_from_plan-count t.id ts)),
        rest,
      )
    ]

-- The queue that a plan starts with is ready, and the other tasks are blocked.
pub initialize_from_plan-Consistent :
    (deps : String → List String) (ts : List MissionTask)
    → Knows deps ts
    → IsDistinct (ids ts)
    → Consistent deps [] (ids ts) (initialize_from_plan ts).1 (initialize_from_plan ts).0
initialize_from_plan-Consistent deps ts knows distinct = record {
  is_ready = record {
    listed = λ v. initialize_from_plan-count v ts;
    deps_done = λ v. initialize_from_plan-deps deps v ts knows;
  };
  apart = initialize_from_plan-BlockedApart (ids ts) ts distinct (λ v. omega arith);
}
