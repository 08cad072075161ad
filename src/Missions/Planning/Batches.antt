-- ===== src/Missions/Planning/Batches.antt =====
-- The batches of a default plan: each task is in one of them, after the tasks it depends on.
use local_first_se_platform.Base.{
  ℕ, zero, suc, ◌+◌, ◌<◌, String, ◌≡◌, refl, subst, ◌⊎◌, inl, inr, Option, none, some, List, [],
  ◌∷◌, ◌++◌, arith, leb, nat_eq, Bool-cases, ◌==◌, one_if, count, count-append,
}
use local_first_se_platform.Missions.Plan.{ids}
use local_first_se_platform.Missions.Planning.{
  TaskBlueprint, task_id, task_of, tasks_from, add_to_batch, batch_map, sorted_in, sort_batches,
  batch_lists, plan_from,
}

abbrev pub flatten : List (List String) → List String
flatten [] = []
flatten (xs ∷ xss) = xs ++ flatten xss

-- How often an id stands in the numbered batches.
unfoldable in_batches : String → List (ℕ × List String) → ℕ
in_batches v [] = 0
in_batches v ((n, xs) ∷ bs) = count v xs + in_batches v bs

count-flatten :
    (v : String) (bs : List (ℕ × List String))
    → count v (flatten (batch_lists bs)) ≡ in_batches v bs
unfolding in_batches count
count-flatten v [] = refl
count-flatten v ((n, xs) ∷ bs) =
    omega (arith, count-append v xs (flatten (batch_lists bs)), count-flatten v bs)

count_one : (v x : String) → count v (x ∷ []) ≡ one_if (x == v)
unfolding count
count_one v x = omega arith

in_batches-add_to_batch :
    (v : String) (n : ℕ) (id : String) (bs : List (ℕ × List String))
    → in_batches v (add_to_batch n id bs) ≡ in_batches v bs + one_if (id == v)
unfolding in_batches add_to_batch
in_batches-add_to_batch v n id [] = omega (arith, count_one v id)
in_batches-add_to_batch v n id ((m, xs) ∷ bs) = elim (Bool-cases (nat_eq m n)) [
  | inl e ↦ rw (e, add_to_batch) (omega (arith, count-append v xs (id ∷ []), count_one v id))
  | inr e ↦ rw (e, add_to_batch) (omega (arith, in_batches-add_to_batch v n id bs))
]

in_batches-batch_map :
    (v m goal : String) (idx : ℕ) (bps : List TaskBlueprint) (bs : List (ℕ × List String))
    → in_batches v (batch_map m idx bps bs)
      ≡ in_batches v bs + count v (ids (tasks_from m goal idx bps))
unfolding batch_map tasks_from count task_of
in_batches-batch_map v m goal idx [] bs = omega arith
in_batches-batch_map v m goal idx (bp ∷ bps) bs =
    let id = task_id m (idx + 1) in
    omega (
      arith,
      in_batches-batch_map v m goal (idx + 1) bps (add_to_batch bp.batch id bs),
      in_batches-add_to_batch v bp.batch id bs,
    )

in_batches-sorted_in :
    (v : String) (b : ℕ × List String) (bs : List (ℕ × List String))
    → in_batches v (sorted_in b bs) ≡ count v b.1 + in_batches v bs
unfolding in_batches sorted_in
in_batches-sorted_in v b [] = refl
in_batches-sorted_in v b (c ∷ cs) = elim (Bool-cases (leb b.0 c.0)) [
  | inl e ↦ rw (e, sorted_in) refl
  | inr e ↦ rw (e, sorted_in) (omega (arith, in_batches-sorted_in v b cs))
]

in_batches-sort :
    (v : String) (bs : List (ℕ × List String)) → in_batches v (sort_batches bs) ≡ in_batches v bs
unfolding in_batches sort_batches
in_batches-sort v [] = refl
in_batches-sort v ((n, xs) ∷ bs) =
    omega (arith, in_batches-sorted_in v (n, xs) (sort_batches bs), in_batches-sort v bs)

-- Whatever the blueprints are, the batches of a plan hold its tasks and nothing else: an id is in
-- them as often as it is the id of a task.
pub plan_from_partitions :
    (m goal : String) (workspace_path project_id : Option String) (bps : List TaskBlueprint)
    (v : String)
    → let plan = plan_from m goal workspace_path project_id bps in
      count v (flatten plan.execution_batches) ≡ count v (ids plan.tasks)
unfolding plan_from in_batches
plan_from_partitions m goal workspace_path project_id bps v = omega (
  arith,
  count-flatten v (sort_batches (batch_map m 0 bps [])),
  in_batches-sort v (batch_map m 0 bps []),
  in_batches-batch_map v m goal 0 bps [],
)

-- `id` is in a batch of the number `n`.
abbrev pub IsIn : ℕ → String → List (ℕ × List String) → Type 0
IsIn n id [] = ⊥
IsIn n id ((m, xs) ∷ bs) = ((m ≡ n) × (0 < count id xs)) ⊎ IsIn n id bs

count-left : (v x : String) (xs : List String) → 0 < count v xs → 0 < count v (xs ++ x ∷ [])
count-left v x xs h = omega (arith, count-append v xs (x ∷ []))

count_last : (v : String) (xs : List String) → 0 < count v (xs ++ v ∷ [])
unfolding one_if
count_last v xs = ground (arith, count-append v xs (v ∷ []), count_one v v)

add_to_batch-IsIn :
    (n : ℕ) (id : String) (bs : List (ℕ × List String)) → IsIn n id (add_to_batch n id bs)
unfolding add_to_batch
add_to_batch-IsIn n id [] = inl (refl, count_last id [])
add_to_batch-IsIn n id ((m, xs) ∷ bs) = elim (Bool-cases (nat_eq m n)) [
  | inl e ↦ rw (e, add_to_batch) (inl (ground arith, count_last id xs))
  | inr e ↦ rw (e, add_to_batch) (inr (add_to_batch-IsIn n id bs))
]

add_to_batch_keeps :
    (k n : ℕ) (v id : String) (bs : List (ℕ × List String))
    → IsIn k v bs
    → IsIn k v (add_to_batch n id bs)
unfolding add_to_batch
add_to_batch_keeps k n v id [] h = absurd h
add_to_batch_keeps k n v id ((m, xs) ∷ bs) h = elim (Bool-cases (nat_eq m n)) [
  | inl e ↦
      rw (e, add_to_batch)
        (elim h [ inl (same, here) ↦ inl (same, count-left v id xs here) | inr later ↦ inr later ])
  | inr e ↦
      rw (e, add_to_batch)
        (elim h [ inl here ↦ inl here | inr later ↦ inr (add_to_batch_keeps k n v id bs later) ])
]

batch_map_keeps :
    (k : ℕ) (v m : String) (idx : ℕ) (bps : List TaskBlueprint) (bs : List (ℕ × List String))
    → IsIn k v bs
    → IsIn k v (batch_map m idx bps bs)
unfolding batch_map
batch_map_keeps k v m idx [] bs h = h
batch_map_keeps k v m idx (bp ∷ bps) bs h =
    batch_map_keeps k v m (idx + 1) bps (add_to_batch bp.batch (task_id m (idx + 1)) bs)
      (add_to_batch_keeps k bp.batch v (task_id m (idx + 1)) bs h)

-- The blueprint of the task with a number, counted from 1.
abbrev pub numbered : ℕ → List TaskBlueprint → Option TaskBlueprint
numbered zero bps = none
numbered (suc n) [] = none
numbered (suc zero) (bp ∷ bps) = some bp
numbered (suc (suc n)) (bp ∷ bps) = numbered (suc n) bps

pub batch_map-IsIn :
    (m : String) (idx n : ℕ) (bps : List TaskBlueprint) (bs : List (ℕ × List String))
    (bp : TaskBlueprint)
    → numbered n bps ≡ some bp
    → IsIn bp.batch (task_id m (idx + n)) (batch_map m idx bps bs)
unfolding batch_map
batch_map-IsIn m idx zero bps bs bp h = cc
batch_map-IsIn m idx (suc n) [] bs bp h = cc
batch_map-IsIn m idx (suc zero) (b ∷ bps) bs bp h =
    let id = task_id m (idx + 1) in
    let same : b ≡ bp = cc in
    subst
      (λ (x : TaskBlueprint).
        IsIn x.batch id (batch_map m (idx + 1) bps (add_to_batch b.batch id bs)))
      same
      (batch_map_keeps b.batch id m (idx + 1) bps (add_to_batch b.batch id bs)
        (add_to_batch-IsIn b.batch id bs))
batch_map-IsIn m idx (suc (suc n)) (b ∷ bps) bs bp h =
    let later = add_to_batch b.batch (task_id m (idx + 1)) bs in
    let shifted : idx + 1 + suc n ≡ idx + suc (suc n) = omega arith in
    subst (λ k. IsIn bp.batch (task_id m k) (batch_map m (idx + 1) bps later)) shifted
      (batch_map-IsIn m (idx + 1) (suc n) bps later bp h)
