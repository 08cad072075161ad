-- ===== src/Missions/ReadyQueue/Unlocking.antt =====
-- What unlocking keeps, and when it unlocks.
use local_first_se_platform.Base.{
  ◌≤◌, ◌<◌, String, ◌≡◌, refl, sym, ap, ◌∙◌, inl, inr, Bool, true, false, not, ◌&&◌, List, [], ◌∷◌,
  ◌++◌, arith, if◌then◌else◌, Bool-cases, same_id, contains, one_if, count, count-append, All,
}
use local_first_se_platform.Missions.Plan.{ready, MissionTask, with_status, ids}
use local_first_se_platform.Missions.ReadyQueue.{
  is_blocked, all_completed, unlocks, unlock_ready_tasks,
}

-- The dependencies of the tasks, as a function of the id.
abbrev pub Knows : (String → List String) → List MissionTask → Type 0
Knows deps ts = All (λ t. deps t.id ≡ t.dependencies) ts

-- What a queue may hold: ids that are still pending, once each, with all dependencies completed.
pub record IsReadyQueue (deps : String → List String)
    (completed_ids pending_ids queue : List String) : Type 0 where
  pub listed : (v : String) → count v queue ≤ count v pending_ids
  pub deps_done : (v : String) → 0 < count v queue → all_completed completed_ids (deps v) ≡ true

-- A blocked task is pending, and does not stand in the queue.
abbrev pub BlockedApart : List String → List String → List MissionTask → Type 0
BlockedApart pending_ids queue ts =
    All (λ t. is_blocked t.status ≡ true → (0 < count t.id pending_ids) × (count t.id queue ≡ 0)) ts

abbrev pub IsDistinct : List String → Type 0
IsDistinct xs = (v : String) → count v xs ≤ 1

push-IsReadyQueue :
    (deps : String → List String) (completed_ids pending_ids queue : List String) (v : String)
    → IsReadyQueue deps completed_ids pending_ids queue
    → 0 < count v pending_ids
    → count v queue ≡ 0
    → all_completed completed_ids (deps v) ≡ true
    → IsReadyQueue deps completed_ids pending_ids (queue ++ v ∷ [])
unfolding count one_if
push-IsReadyQueue deps completed_ids pending_ids queue v q waits new done = record {
  listed = λ w. ground (arith, count-append w queue (v ∷ []), q.listed w);
  deps_done = λ w h. elim (same_id v w) [
    | yes e ↦ rw (← e) done
    | no other ↦ q.deps_done w (ground (arith, count-append w queue (v ∷ [])))
  ];
}

push-BlockedApart :
    (pending_ids queue : List String) (v : String) (ts : List MissionTask)
    → count v (ids ts) ≡ 0
    → BlockedApart pending_ids queue ts
    → BlockedApart pending_ids (queue ++ v ∷ []) ts
unfolding count one_if
push-BlockedApart pending_ids queue v [] fresh h = tt
push-BlockedApart pending_ids queue v (t ∷ ts) fresh h = (
  λ b. let (waits, apart) = h.0 b in (waits, ground (arith, count-append t.id queue (v ∷ []))),
  push-BlockedApart pending_ids queue v ts (omega arith) h.1,
)

-- Unlocking a list of tasks does not touch the queue entries of other ids.
unlock_ready_tasks-count_other :
    (v : String) (completed_ids queue newly : List String) (ts : List MissionTask)
    → count v (ids ts) ≡ 0
    → count v (unlock_ready_tasks completed_ids ts queue newly).queue ≡ count v queue
unfolding unlock_ready_tasks count one_if
unlock_ready_tasks-count_other v completed_ids queue newly [] fresh = refl
unlock_ready_tasks-count_other v completed_ids queue newly (t ∷ ts) fresh =
    elim (Bool-cases (unlocks completed_ids t && not (contains t.id queue))) [
      | inl push ↦ rw push (
          unlock_ready_tasks-count_other v completed_ids (queue ++ t.id ∷ []) (newly ++ t.id ∷ [])
            ts (omega arith)
          ∙ ground (arith, count-append v queue (t.id ∷ [])))
      | inr keep ↦
          rw keep (unlock_ready_tasks-count_other v completed_ids queue newly ts (omega arith))
    ]

-- What the queue and the tasks satisfy together between two steps.
pub record Consistent (deps : String → List String) (completed_ids pending_ids queue : List String)
    (ts : List MissionTask) : Type 0 where
  pub is_ready : IsReadyQueue deps completed_ids pending_ids queue
  pub apart : BlockedApart pending_ids queue ts

unlocks_facts :
    (completed_ids : List String) (t : MissionTask)
    → unlocks completed_ids t ≡ true
    → (is_blocked t.status ≡ true) × (all_completed completed_ids t.dependencies ≡ true)
unlocks_facts completed_ids t h = ground arith

module _ (deps : String → List String) (completed_ids pending_ids : List String) where
  -- One task is unlocked, or left as it is.
  unlock_one :
      (t : MissionTask) (ts : List MissionTask) (queue : List String)
      → deps t.id ≡ t.dependencies
      → count t.id (ids ts) ≡ 0
      → Consistent deps completed_ids pending_ids queue (t ∷ ts)
      → Consistent deps completed_ids pending_ids
          (if unlocks completed_ids t && not (contains t.id queue)
            then queue ++ t.id ∷ []
            else queue)
          ts
  unlock_one t ts queue known fresh c =
      elim (Bool-cases (unlocks completed_ids t && not (contains t.id queue))) [
        | inl push ↦
            let (was_blocked, done) = unlocks_facts completed_ids t (ground arith) in
            let (waits, new) = c.apart.0 was_blocked in
            rw push (record {
              is_ready =
                  push-IsReadyQueue deps completed_ids pending_ids queue t.id c.is_ready waits new
                    (rw known done);
              apart = push-BlockedApart pending_ids queue t.id ts fresh c.apart.1;
            })
        | inr keep ↦ rw keep (record { is_ready = c.is_ready; apart = c.apart.1 })
      ]

  unlock_head :
      (t : MissionTask) (queue final : List String)
      → BlockedApart pending_ids queue (t ∷ [])
      → (unlocks completed_ids t ≡ false → count t.id final ≡ count t.id queue)
      → BlockedApart pending_ids final
          ((if unlocks completed_ids t then with_status ready t else t) ∷ [])
  unlock_head t queue final h same = elim (Bool-cases (unlocks completed_ids t)) [
    | inl opens ↦ rw opens (λ b. cc, tt)
    | inr stays ↦ rw stays (λ b. let (waits, new) = h.0 b in (waits, same stays ∙ new), tt)
  ]

  -- `unlockReadyTasks` keeps the queue ready, and each task that is still blocked out of it.
  pub unlock_ready_tasks-Consistent :
      (queue newly : List String) (ts : List MissionTask)
      → Knows deps ts
      → IsDistinct (ids ts)
      → Consistent deps completed_ids pending_ids queue ts
      → let after = unlock_ready_tasks completed_ids ts queue newly in
        Consistent deps completed_ids pending_ids after.queue after.tasks
  unfolding unlock_ready_tasks count one_if
  unlock_ready_tasks-Consistent queue newly [] knows distinct c = c
  unlock_ready_tasks-Consistent queue newly (t ∷ ts) knows distinct c =
      let pushes = unlocks completed_ids t && not (contains t.id queue) in
      let queue' = if pushes then queue ++ t.id ∷ [] else queue in
      let newly' = if pushes then newly ++ t.id ∷ [] else newly in
      let fresh : count t.id (ids ts) ≡ 0 = ground (arith, distinct t.id) in
      let rest =
        unlock_ready_tasks-Consistent queue' newly' ts knows.1 (λ v. omega (arith, distinct v))
          (unlock_one t ts queue knows.0 fresh c) in
      let other = unlock_ready_tasks-count_other t.id completed_ids queue' newly' ts fresh in
      record {
        is_ready = rest.is_ready;
        apart = (
          (unlock_head t queue _ (c.apart.0, tt) (λ stays. other ∙ rw stays refl)).0,
          rest.apart,
        );
      }

opened_id : (opens : Bool) (t : MissionTask) → (if opens then with_status ready t else t).id ≡ t.id
opened_id true t = refl
opened_id false t = refl

opened_deps :
    (opens : Bool) (t : MissionTask)
    → (if opens then with_status ready t else t).dependencies ≡ t.dependencies
opened_deps true t = refl
opened_deps false t = refl

pub unlock_ready_tasks-ids :
    (completed_ids queue newly : List String) (ts : List MissionTask)
    → ids (unlock_ready_tasks completed_ids ts queue newly).tasks ≡ ids ts
unfolding unlock_ready_tasks
unlock_ready_tasks-ids completed_ids queue newly [] = refl
unlock_ready_tasks-ids completed_ids queue newly (t ∷ ts) =
    let pushes = unlocks completed_ids t && not (contains t.id queue) in
    let rest =
      unlock_ready_tasks-ids completed_ids (if pushes then queue ++ t.id ∷ [] else queue)
        (if pushes then newly ++ t.id ∷ [] else newly) ts in
    cc (opened_id (unlocks completed_ids t) t)

pub unlock_ready_tasks-Knows :
    (deps : String → List String) (completed_ids queue newly : List String) (ts : List MissionTask)
    → Knows deps ts
    → Knows deps (unlock_ready_tasks completed_ids ts queue newly).tasks
unfolding unlock_ready_tasks
unlock_ready_tasks-Knows deps completed_ids queue newly [] h = tt
unlock_ready_tasks-Knows deps completed_ids queue newly (t ∷ ts) h =
    let opens = unlocks completed_ids t in
    let pushes = opens && not (contains t.id queue) in
    (
      ap deps (opened_id opens t) ∙ h.0 ∙ sym (opened_deps opens t),
      unlock_ready_tasks-Knows deps completed_ids (if pushes then queue ++ t.id ∷ [] else queue)
          (if pushes then newly ++ t.id ∷ [] else newly) ts h.1,
    )
