-- ===== src/Missions/Execution/Completion.antt =====
-- What it means that `executeMissionPlan` reports success.
use local_first_se_platform.Base.{
  ℕ, ◌+◌, ◌≤◌, ◌<◌, String, ◌≡◌, refl, ap, true, List, [], ◌∷◌, arith, if◌then◌else◌, ◌==◌, length,
  one_if, count,
}
use local_first_se_platform.Missions.Plan.{MissionTask, ids}
use local_first_se_platform.Missions.ReadyQueue.Unlocking.{IsDistinct}
use local_first_se_platform.Missions.Execution.{Execution, Reach, all_done}
use local_first_se_platform.Missions.Execution.Safety.{Reach-Inv}

pub length-ids : (ts : List MissionTask) → length (ids ts) ≡ length ts
length-ids [] = refl
length-ids (t ∷ ts) = omega (arith, length-ids ts)

-- The list without the first `x`.
erase : String → List String → List String
erase x [] = []
erase x (y ∷ ys) = if y == x then ys else y ∷ erase x ys

count-erase :
    (v x : String) (ys : List String)
    → 0 < count x ys
    → count v (erase x ys) + one_if (x == v) ≡ count v ys
unfolding erase count one_if
count-erase v x [] h = absurd (omega arith)
count-erase v x (y ∷ ys) h = ground (arith, count-erase v x ys)

length-erase :
    (x : String) (ys : List String) → 0 < count x ys → length (erase x ys) + 1 ≡ length ys
unfolding erase count one_if
length-erase x [] h = absurd (omega arith)
length-erase x (y ∷ ys) h = ground (arith, length-erase x ys)

one_self : (x : String) → one_if (x == x) ≡ 1
unfolding one_if
one_self x = ground arith

same_counts :
    (xs ys : List String)
    → ((v : String) → count v xs ≤ count v ys)
    → length xs ≡ length ys
    → (v : String) → count v xs ≡ count v ys
unfolding count
same_counts [] [] below len v = refl
same_counts [] (y ∷ ys) below len v = absurd (omega arith)
same_counts (x ∷ xs) ys below len v =
    let here : 0 < count x ys = omega (arith, below x, one_self x) in
    let rest =
      same_counts xs (erase x ys) (λ w. omega (arith, below w, count-erase w x ys here))
        (omega (arith, length-erase x ys here)) v in
    omega (arith, rest, count-erase v x ys here)

-- Lists with the same counts are as long as each other.
pub length_of_counts :
    (xs ys : List String) → ((v : String) → count v xs ≡ count v ys) → length xs ≡ length ys
unfolding count
length_of_counts [] [] same = refl
length_of_counts [] (y ∷ ys) same = absurd (omega (arith, same y, one_self y))
length_of_counts (x ∷ xs) ys same =
    let here : 0 < count x ys = omega (arith, same x, one_self x) in
    omega (
      arith,
      length_of_counts xs (erase x ys) (λ v. omega (arith, same v, count-erase v x ys here)),
      length-erase x ys here,
    )

-- A mission with distinct task ids is only reported as a success if every task of its plan is
-- among the completed ones, and then none is pending, running or failed.
pub success_completes_all :
    (max_parallel : ℕ) (plan_tasks : List MissionTask) {s : Execution} (v : String)
    → IsDistinct (ids plan_tasks)
    → Reach max_parallel plan_tasks s
    → all_done s ≡ true
    → (count v s.completed_ids ≡ count v (ids plan_tasks))
      × (count v s.pending_ids ≡ 0)
      × (count v s.running_ids ≡ 0)
      × (count v s.failed_ids ≡ 0)
unfolding all_done
success_completes_all m plan_tasks {s} v distinct r done =
    let inv = Reach-Inv m plan_tasks distinct r in
    let all =
      same_counts s.completed_ids (ids plan_tasks) (λ w. omega (arith, inv.conserved w))
        (ground (arith, length-ids s.tasks, ap length inv.same_ids)) v in
    (
      all,
      omega (arith, all, inv.conserved v),
      omega (arith, all, inv.conserved v),
      omega (arith, all, inv.conserved v),
    )
