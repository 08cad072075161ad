-- ===== src/Missions/Attempts/Repair.antt =====
-- What rejected reviews of one task set off.
use local_first_se_platform.Base.{
  ℕ, ◌+◌, String, ◌≡◌, refl, ap, ◌∙◌, ◌⊎◌, inl, inr, Bool, true, false, not, ◌&&◌, ◌||◌, some, List,
  [], ◌∷◌, ◌++◌, arith, ltb, leb, if◌then◌else◌, Bool-cases, eq_self, one_if, count, count-append,
  length, contains, lookup, lookup-insert,
}
use local_first_se_platform.Missions.Attempts.{
  RepairState, status_completed, status_failed, push_new, without, mark_failed, mark_repaired,
  repairs_of, retry_task_after_review, is_repairable,
}

-- Rejected reviews of one task, one after the other, with what came of each repair.
unfoldable pub retry_all : String → List Bool → RepairState → RepairState
retry_all id [] s = s
retry_all id (passed ∷ rest) s = retry_all id rest (retry_task_after_review id passed s)

unrepairable :
    (id : String) (passed : Bool) (s : RepairState)
    → is_repairable id s ≡ false
    → retry_task_after_review id passed s ≡ s
unfolding retry_task_after_review
unrepairable id passed s no_task = rw no_task refl

all_unrepairable :
    (id : String) (outcomes : List Bool) (s : RepairState)
    → is_repairable id s ≡ false
    → retry_all id outcomes s ≡ s
unfolding retry_all
all_unrepairable id [] s no_task = refl
all_unrepairable id (passed ∷ rest) s no_task =
    rw (unrepairable id passed s no_task) (all_unrepairable id rest s no_task)

is_repairable-retry :
    (id : String) (passed : Bool) (s : RepairState)
    → is_repairable id (retry_task_after_review id passed s) ≡ is_repairable id s
unfolding retry_task_after_review mark_failed mark_repaired
is_repairable-retry id passed s = ground arith

repairs_of-retry :
    (id : String) (passed : Bool) (s : RepairState)
    → is_repairable id s ≡ true
    → repairs_of id (retry_task_after_review id passed s) ≡ repairs_of id s + 1
unfolding retry_task_after_review mark_failed mark_repaired repairs_of
repairs_of-retry id passed s h =
    rw h (ground (arith, lookup-insert id id (repairs_of id s + 1) s.repair_attempts, eq_self id))

count_self : (id : String) → count id (id ∷ []) ≡ 1
unfolding count one_if
count_self id = ground arith

dispatched-retry :
    (id : String) (passed : Bool) (s : RepairState)
    → is_repairable id s ≡ true
    → count id (retry_task_after_review id passed s).dispatched
      ≡ count id s.dispatched + one_if (ltb (repairs_of id s) 3)
unfolding retry_task_after_review mark_failed mark_repaired repairs_of one_if
dispatched-retry id passed s h =
    rw h (ground (arith, count-append id s.dispatched (id ∷ []), count_self id))

contains-snoc : (id : String) (xs : List String) → contains id (xs ++ id ∷ []) ≡ true
contains-snoc id [] = rw eq_self refl
contains-snoc id (x ∷ xs) = ground (arith, contains-snoc id xs)

contains-push_new : (id : String) (xs : List String) → contains id (push_new id xs) ≡ true
unfolding push_new
contains-push_new id xs = ground (arith, contains-snoc id xs)

contains-without : (id : String) (xs : List String) → contains id (without id xs) ≡ false
unfolding without
contains-without id [] = refl
contains-without id (x ∷ xs) = ground (arith, contains-without id xs)

-- A repair passes among those that are dispatched: `done` repairs are counted before the first.
unfoldable pub passes_in_time : ℕ → List Bool → Bool
passes_in_time done [] = false
passes_in_time done (passed ∷ rest) = (passed && ltb done 3) || passes_in_time (done + 1) rest

abbrev pub least : ℕ → ℕ → ℕ
least a b = if leb a b then a else b

-- What one rejected review leaves of its task, when `passing` says whether a repair passed in time.
abbrev Left : String → Bool → RepairState → RepairState → Type 0
Left id passing s after =
    (lookup id after.statuses ≡ some (if passing then status_completed else status_failed))
    × (contains id after.failed_ids ≡ not passing)
    × (contains id after.completed_ids ≡ (passing || contains id s.completed_ids))

retry-Left :
    (id : String) (passed : Bool) (s : RepairState)
    → is_repairable id s ≡ true
    → Left id (passed && ltb (repairs_of id s) 3) s (retry_task_after_review id passed s)
unfolding retry_task_after_review mark_failed mark_repaired
retry-Left id passed s h = rw h (
  ground (
    arith,
    lookup-insert id id status_completed s.statuses,
    lookup-insert id id status_failed s.statuses,
    eq_self id,
  ),
  ground (arith, contains-push_new id s.failed_ids, contains-without id s.failed_ids),
  ground (arith, contains-push_new id s.completed_ids),
)

retry_all-snoc :
    (id : String) (outcomes : List Bool) (last : Bool) (s : RepairState)
    → retry_all id (outcomes ++ last ∷ []) s
      ≡ retry_task_after_review id last (retry_all id outcomes s)
unfolding retry_all
retry_all-snoc id [] last s = refl
retry_all-snoc id (passed ∷ rest) last s =
    retry_all-snoc id rest last (retry_task_after_review id passed s)

-- What a sequence of rejected reviews leaves of the counters of its task.
abbrev Counted : String → List Bool → RepairState → RepairState → Type 0
Counted id outcomes s after =
    (is_repairable id after ≡ true)
    × (repairs_of id after ≡ repairs_of id s + length outcomes)
    × (count id after.dispatched + least (repairs_of id s) 3
        ≡ count id s.dispatched + least (repairs_of id s + length outcomes) 3)
    × (contains id after.completed_ids
        ≡ (passes_in_time (repairs_of id s) outcomes || contains id s.completed_ids))

retry_all-Counted :
    (id : String) (outcomes : List Bool) (s : RepairState)
    → is_repairable id s ≡ true
    → Counted id outcomes s (retry_all id outcomes s)
unfolding retry_all passes_in_time one_if
retry_all-Counted id [] s h = (h, omega arith, ground arith, refl)
retry_all-Counted id (passed ∷ rest) s h =
    let s' = retry_task_after_review id passed s in
    let (known, counted, sent, completed) =
      retry_all-Counted id rest s' (is_repairable-retry id passed s ∙ h) in
    let one = repairs_of-retry id passed s h in
    let (status, failed, one_completed) = retry-Left id passed s h in
    let sent_one = dispatched-retry id passed s h in
    (
      known,
      omega arith,
      ground (arith, sent, sent_one, one),
      ground (arith, completed, one_completed, ap (λ n. passes_in_time n rest) one),
    )

-- Rejected reviews of one task for which no repair is counted yet, with what came of the repairs.
-- Without a plan that has the task, or without a state of the mission, nothing changes. Otherwise
-- each of the first three dispatches one repair and the later ones none; after the last one the task
-- is COMPLETED and in no list of failures if its repair was dispatched and passed, and FAILED and
-- listed as failed if not; and it stands among the completed tasks if it did before, or if one of
-- the dispatched repairs passed, whatever its status is.
pub retry_all_result :
    (id : String) (outcomes : List Bool) (last : Bool) (s : RepairState)
    → repairs_of id s ≡ 0
    → let after = retry_all id (outcomes ++ last ∷ []) s in
      let passing = last && ltb (length outcomes) 3 in
      ((is_repairable id s ≡ false) × (after ≡ s))
      ⊎ ((is_repairable id s ≡ true)
          × (count id after.dispatched
              ≡ count id s.dispatched + least (length (outcomes ++ last ∷ [])) 3)
          × (lookup id after.statuses ≡ some (if passing then status_completed else status_failed))
          × (contains id after.failed_ids ≡ not passing)
          × (contains id after.completed_ids
              ≡ (passes_in_time 0 (outcomes ++ last ∷ []) || contains id s.completed_ids)))
retry_all_result id outcomes last s none_yet = elim (Bool-cases (is_repairable id s)) [
  | inl known ↦
      let before = retry_all id outcomes s in
      let (still, counted, _, _) = retry_all-Counted id outcomes s known in
      let (_, _, sent, completed) = retry_all-Counted id (outcomes ++ last ∷ []) s known in
      let count_before : repairs_of id before ≡ length outcomes = omega arith in
      let (status, failed, _) = retry-Left id last before still in
      inr (
        known,
        ground arith,
        rw (retry_all-snoc, ← count_before) status,
        rw (retry_all-snoc, ← count_before) failed,
        completed
            ∙ ap (λ n. passes_in_time n (outcomes ++ last ∷ []) || contains id s.completed_ids)
                none_yet,
      )
  | inr no_task ↦ inl (no_task, all_unrepairable id (outcomes ++ last ∷ []) s no_task)
]
