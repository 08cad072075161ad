-- ===== src/Missions/Graph/Kahn/Relax.antt =====
-- What the loop over the neighbors of a task does to the counters and to the queue.
use local_first_se_platform.Base.{
  ℕ, zero, suc, ◌+◌, String, ◌≡◌, refl, ◌∙◌, subst, Bool, true, false, ◌&&◌, some, List, [], ◌∷◌,
  ◌++◌, arith, if◌then◌else◌, same_id, is_yes, ◌==◌, Dict, lookup, insert, lookup-insert,
}
use local_first_se_platform.Base.{
  one_if, count, count-append, ℤ, pos, negsuc, pred_ℤ, is_zero, is_pos, IsDiff, pred_ℤ-IsDiff,
}
use local_first_se_platform.Base.{or_else}
use local_first_se_platform.Missions.Graph.{relax}

abbrev pub value : String → Dict ℤ → ℤ
value v temp = or_else (lookup v temp) (pos 0)

value-insert-IsDiff :
    (v n : String) (temp : Dict ℤ) (a b : ℕ)
    → IsDiff (value v temp) a b
    → IsDiff (value v (insert n (pred_ℤ (value n temp)) temp)) a (one_if (n == v) + b)
unfolding one_if
value-insert-IsDiff v n temp a b h = rw lookup-insert (by_cases (same_id n v))
  where
    by_cases :
        (d : Dec (n ≡ v))
        → IsDiff
            (or_else (if is_yes d then some (pred_ℤ (value n temp)) else lookup v temp) (pos 0))
            a
            (one_if (is_yes d) + b)
    by_cases (yes e) =
        subst (IsDiff (pred_ℤ (value n temp)) a) (omega arith)
          (pred_ℤ-IsDiff (value n temp) a b (rw e h))
    by_cases (no e) = subst (IsDiff (value v temp) a) (omega arith) h

-- Relaxing takes off each counter what the list of neighbors says.
pub relax-IsDiff :
    (v : String) (ns : List String) (temp : Dict ℤ) (queue : List String) (a b : ℕ)
    → IsDiff (value v temp) a b
    → IsDiff (value v (relax ns temp queue).0) a (count v ns + b)
unfolding relax count
relax-IsDiff v [] temp queue a b h = subst (IsDiff (value v temp) a) (omega arith) h
relax-IsDiff v (n ∷ ns) temp queue a b h =
    let z = value n temp in
    let queue' = if is_zero (pred_ℤ z) then queue ++ n ∷ [] else queue in
    subst (IsDiff (value v (relax (n ∷ ns) temp queue).0) a) (omega arith) (
      relax-IsDiff v ns (insert n (pred_ℤ z) temp) queue' a (one_if (n == v) + b)
        (value-insert-IsDiff v n temp a b h))

one_if-pred : (z : ℤ) → one_if (is_pos (pred_ℤ z)) + one_if (is_zero (pred_ℤ z)) ≡ one_if (is_pos z)
unfolding one_if
one_if-pred (pos zero) = refl
one_if-pred (pos (suc zero)) = refl
one_if-pred (pos (suc (suc n))) = refl
one_if-pred (negsuc n) = refl

-- An id enters the queue when its counter stops being positive.
count-push :
    (v n : String) (b : Bool) (queue : List String)
    → count v (if b then queue ++ n ∷ [] else queue) ≡ count v queue + one_if (b && (n == v))
unfolding count one_if
count-push v n true queue = omega (arith, count-append v queue (n ∷ []))
count-push v n false queue = omega arith

pub count-relax :
    (v : String) (ns : List String) (temp : Dict ℤ) (queue : List String)
    → count v (relax ns temp queue).1 + one_if (is_pos (value v (relax ns temp queue).0))
      ≡ count v queue + one_if (is_pos (value v temp))
unfolding relax
count-relax v [] temp queue = refl
count-relax v (n ∷ ns) temp queue =
    let z = value n temp in
    let queue' = if is_zero (pred_ℤ z) then queue ++ n ∷ [] else queue in
    count-relax v ns (insert n (pred_ℤ z) temp) queue'
    ∙ rw (count-push v n (is_zero (pred_ℤ z)) queue, lookup-insert n v (pred_ℤ z) temp)
        (unfold one_if in ground (arith, one_if-pred z))
