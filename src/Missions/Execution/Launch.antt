-- ===== src/Missions/Execution/Launch.antt =====
-- The head of the loop: launching a batch keeps the invariant.
use local_first_se_platform.Base.{
  ℕ, zero, suc, ◌+◌, ◌-◌, ◌≤◌, String, ◌≡◌, refl, sym, ap, subst, List, [], ◌∷◌, ◌++◌, arith,
  same_id, length, length-append, one_if, count,
}
use local_first_se_platform.Missions.ReadyQueue.Unlocking.{IsDistinct}
use local_first_se_platform.Missions.Execution.{Execution, without, take_batch, begin_all, launch}
use local_first_se_platform.Missions.Execution.Inv.{
  Inv, count-without, count-snoc, pop-BlockedApart,
}

pub take_batch-append :
    (room : ℕ) (queue : List String)
    → (take_batch room queue).0 ++ (take_batch room queue).1 ≡ queue
unfolding take_batch
take_batch-append zero [] = refl
take_batch-append (suc room) [] = refl
take_batch-append zero (x ∷ xs) = refl
take_batch-append (suc room) (x ∷ xs) = ap (λ r. x ∷ r) (take_batch-append room xs)

take_batch-length : (room : ℕ) (queue : List String) → length (take_batch room queue).0 ≤ room
unfolding take_batch
take_batch-length zero [] = omega arith
take_batch-length (suc room) [] = omega arith
take_batch-length zero (x ∷ xs) = omega arith
take_batch-length (suc room) (x ∷ xs) = omega (arith, take_batch-length room xs)

pub begin_all-running :
    (ts : List String) (s : Execution)
    → length (begin_all ts s).running_ids ≡ length s.running_ids + length ts
unfolding begin_all
begin_all-running [] s = omega arith
begin_all-running (t ∷ ts) s =
    let s' = record s {
      pending_ids = without t s.pending_ids;
      running_ids = s.running_ids ++ t ∷ [];
    } in
    omega (arith, begin_all-running ts s', length-append s.running_ids (t ∷ []))

-- A launch leaves at most `max_parallel` tasks running, if no more were running before.
pub launch-running_le :
    (max_parallel : ℕ) (s : Execution)
    → length s.running_ids ≤ max_parallel
    → length (launch max_parallel s).running_ids ≤ max_parallel
unfolding launch
launch-running_le max_parallel s h =
    let room = max_parallel - length s.running_ids in
    let (batch, rest) = take_batch room s.queue in
    omega
      (arith, begin_all-running batch (record s { queue = rest }), take_batch-length room s.queue)

module _ (deps : String → List String) (plan_ids : List String)
    (distinct : IsDistinct plan_ids) where
  begin_one-Inv :
      (t : String) (more : List String) (s : Execution)
      → Inv deps plan_ids (record s { queue = t ∷ more })
      → Inv deps plan_ids (record s {
        pending_ids = without t s.pending_ids;
        running_ids = s.running_ids ++ t ∷ [];
        queue = more;
      })
  unfolding count one_if
  begin_one-Inv t more s inv =
      let q = inv.consistent.is_ready in
      record {
        knows = inv.knows;
        same_ids = inv.same_ids;
        conserved = λ v. ground (
          arith,
          count-without v t s.pending_ids,
          count-snoc v t s.running_ids,
          q.listed v,
          inv.conserved v,
          distinct v,
        );
        consistent = record {
          is_ready = record {
            listed = λ v.
                ground
                  (arith, count-without v t s.pending_ids, q.listed v, inv.conserved v, distinct v);
            deps_done = λ v h. q.deps_done v (omega arith);
          };
          apart = pop-BlockedApart t s.pending_ids more s.tasks inv.consistent.apart;
        };
        deps_done = λ v h. elim (same_id t v) [
          | yes e ↦ q.deps_done v (ground arith)
          | no other ↦ inv.deps_done v (ground (arith, count-snoc v t s.running_ids))
        ];
      }

  begin_all-Inv :
      (ts rest : List String) (s : Execution)
      → Inv deps plan_ids (record s { queue = ts ++ rest })
      → Inv deps plan_ids (begin_all ts (record s { queue = rest }))
  unfolding begin_all
  begin_all-Inv [] rest s inv = inv
  begin_all-Inv (t ∷ ts) rest s inv =
      begin_all-Inv ts rest
        (record s { pending_ids = without t s.pending_ids; running_ids = s.running_ids ++ t ∷ [] })
        (begin_one-Inv t (ts ++ rest) s inv)

  pub launch-Inv :
      (max_parallel : ℕ) (s : Execution)
      → Inv deps plan_ids s
      → Inv deps plan_ids (launch max_parallel s)
  unfolding launch
  launch-Inv max_parallel s inv =
      let room = max_parallel - length s.running_ids in
      let (batch, rest) = take_batch room s.queue in
      begin_all-Inv batch rest s (
        subst (λ q. Inv deps plan_ids (record s { queue = q }))
          (sym (take_batch-append room s.queue)) inv)
