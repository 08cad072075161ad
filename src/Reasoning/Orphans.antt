-- ===== src/Reasoning/Orphans.antt =====
-- Active requests that nothing will end.
use local_first_se_platform.Base.{
  ℕ, ◌+◌, String, ◌≡◌, refl, ◌≢◌, inl, inr, Bool, true, false, not, Option, none, some, List, [],
  ◌∷◌, ◌++◌, arith, if◌then◌else◌, Option-cases, same_id, ◌==◌, every, one_if, Dict, lookup, insert,
  remove, has, lookup-insert,
}
use local_first_se_platform.Workers.Worker.{
  Worker, ActiveExecution, TaskOutcome, CompletionOptions, begin_execution, complete_execution,
}
use local_first_se_platform.Workers.Store.{WorkerStore}
use local_first_se_platform.Reasoning.{
  Waiting, Interrupt, Coordinator, take_out, execution_on, complete_at,
}

pub has-remove {ℓ} :
    {V : Type ℓ} (k j : String) (m : Dict V)
    → has j (remove k m) ≡ (if k == j then false else has j m)
unfolding has remove
has-remove k j [] = ground arith
has-remove k j ((i, w) ∷ m) = ground (arith, has-remove k j m)

-- How many waiting requests have an id.
unfoldable pub named : String → List Waiting → ℕ
unfolding one_if
named id [] = 0
named id (p ∷ ps) = one_if (p.request.request_id == id) + named id ps

pub named-snoc :
    (id : String) (ps : List Waiting) (p : Waiting)
    → named id (ps ++ p ∷ []) ≡ named id ps + one_if (p.request.request_id == id)
unfolding named
named-snoc id [] p = omega arith
named-snoc id (q ∷ qs) p = omega (arith, named-snoc id qs p)

abbrev pub names : String → Option Waiting → ℕ
names id none = 0
names id (some p) = one_if (p.request.request_id == id)

pub named-take_out :
    (id other : String) (ps : List Waiting)
    → names id (take_out other ps).0 + named id (take_out other ps).1 ≡ named id ps
unfolding named take_out
named-take_out id other [] = refl
named-take_out id other (p ∷ ps) = ground (arith, named-take_out id other ps)

abbrev pub spares : String → Interrupt → Bool
spares id i = not (i.request_id == id)

-- No worker of the store executes the request.
abbrev pub IsUnworked : String → WorkerStore → Type 0
IsUnworked id store =
    (v : String) (a : ActiveExecution) → execution_on (lookup v store) ≡ some a → a.request_id ≢ id

-- An active request that nothing will end.
pub record Orphan (id : String) (s : Coordinator) : Type 0 where
  pub active : has id s.active ≡ true
  pub not_selecting : named id s.selecting ≡ 0
  pub not_executing : named id s.executing ≡ 0
  pub not_interrupting : every (spares id) s.interrupting ≡ true
  pub unworked : IsUnworked id s.store

pub insert-IsUnworked :
    (id k : String) (w : Worker) (store : WorkerStore)
    → ((a : ActiveExecution) → w.active_execution ≡ some a → a.request_id ≢ id)
    → IsUnworked id store
    → IsUnworked id (insert k w store)
insert-IsUnworked id k w store own h v a e = elim (same_id k v) [
  | yes same ↦ own a (ground (arith, lookup-insert k v w store))
  | no other ↦ h v a (ground (arith, lookup-insert k v w store))
]

pub completed-none :
    (outcome : TaskOutcome) (opts : CompletionOptions) (now : ℕ) (w : Worker)
    → (complete_execution outcome opts now w).active_execution ≡ none
unfolding complete_execution
completed-none outcome opts now w = elim (Option-cases w.active_execution) [
  | inl e ↦ rw (e, complete_execution) e
  | inr (a, e) ↦ rw (e, complete_execution) refl
]

pub complete_at-IsUnworked :
    (id k : String) (outcome : TaskOutcome) (opts : CompletionOptions) (now : ℕ)
    (store : WorkerStore)
    → IsUnworked id store
    → IsUnworked id (complete_at outcome opts now k (lookup k store) store)
unfolding complete_at
complete_at-IsUnworked id k outcome opts now store h = elim (Option-cases (lookup k store)) [
  | inl e ↦ rw (e, complete_at) h
  | inr (w, e) ↦
      rw (e, complete_at)
        (insert-IsUnworked id k (complete_execution outcome opts now w) store
          (λ a f. absurd (let g = completed-none outcome opts now w in cc)) h)
]

pub begun-execution :
    (e : ActiveExecution) (w w' : Worker)
    → begin_execution e w ≡ some w'
    → w'.active_execution ≡ some e
unfolding begin_execution
begun-execution e w w' h = ground arith
