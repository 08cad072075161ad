-- ===== src/Missions/Assignment/Batches.antt =====
-- Who gets the tasks of one batch.
use local_first_se_platform.Base.{
  ◌==◌, same_id, eq_self, sym, ◌∙◌, ◌≤◌, String, ◌≡◌, refl, ◌≢◌, ◌⊎◌, inl, inr, Bool, true, false,
  ◌&&◌, Option, none, some, List, [], ◌∷◌, ◌++◌, arith, Bool-cases, every, contains, one_if, count,
  count-append,
}
use local_first_se_platform.Workers.Worker.{Worker}
use local_first_se_platform.Workers.Store.{WorkerStore, list_by_department}
use local_first_se_platform.Missions.Plan.{MissionTask, find_task}
use local_first_se_platform.Missions.Assignment.{
  department_for_capability, select_for, Assignments, assign_to, assign_found, assign_batch,
  assign_task,
}
use local_first_se_platform.Missions.Assignment.Choice.{is_taken, is_member, select_for_exclusive}

contains-left :
    (v : String) (xs ys : List String) → contains v xs ≡ true → contains v (xs ++ ys) ≡ true
contains-left v [] ys h = cc
contains-left v (x ∷ xs) ys h = ground (arith, contains-left v xs ys)

rest_of : (a b : Bool) → (a && b) ≡ true → b ≡ true
rest_of true b h = h
rest_of false b h = cc

false_first : (a b : Bool) → a ≡ false → (a && b) ≢ true
false_first true b e h = cc
false_first false b e h = cc

every-left :
    (ws : List Worker) (xs ys : List String)
    → every (λ w. contains w.id xs) ws ≡ true
    → every (λ w. contains w.id (xs ++ ys)) ws ≡ true
every-left [] xs ys h = refl
every-left (w ∷ ws) xs ys h = elim (Bool-cases (contains w.id xs)) [
  | inl e ↦ rw (contains-left w.id xs ys e) (every-left ws xs ys (rest_of (contains w.id xs) _ h))
  | inr e ↦ absurd (false_first (contains w.id xs) _ e h)
]

count-none : (v : String) (xs : List String) → contains v xs ≡ false → count v xs ≡ 0
unfolding count one_if
count-none v [] h = refl
count-none v (x ∷ xs) h = ground (arith, count-none v xs)

abbrev pub capability_of : String → List MissionTask → Option String
capability_of id ts = elim (find_task id ts) [ none ↦ none | some t ↦ some t.required_capability ]

-- The task `id` of the batch is for a department that has the worker `v`, and has all of its workers
-- in the batch.
abbrev pub IsCrowded :
    String → WorkerStore → List String → List MissionTask → List String → String → Type 0
IsCrowded v store ids tasks used id =
    (capability : String) × (contains id ids ≡ true)
    × (capability_of id tasks ≡ some capability)
    × (is_taken (department_for_capability capability) used store ≡ true)
    × (is_member v (department_for_capability capability) store ≡ true)

abbrev IsSpread : String → WorkerStore → List String → List MissionTask → List String → Type 0
IsSpread v store ids tasks used =
    (count v used ≤ 1) ⊎ ((id : String) × IsCrowded v store ids tasks used id)

at_most_one :
    (v w : String) (used : List String)
    → contains w used ≡ false
    → count v used ≤ 1
    → count v (used ++ w ∷ []) ≤ 1
unfolding count one_if
at_most_one v w used fresh few =
    ground (arith, count-append v used (w ∷ []), count-none w used fresh)

another :
    (v w : String) (used : List String) → (w == v) ≡ false → count v (used ++ w ∷ []) ≡ count v used
unfolding count one_if
another v w used apart = ground (arith, count-append v used (w ∷ []))

none_at_first : (v : String) → count v [] ≤ 1
unfolding count
none_at_first v = omega arith

capability_of-assign :
    (k id department worker : String) (ts : List MissionTask)
    → capability_of k (assign_task id department worker ts) ≡ capability_of k ts
unfolding assign_task find_task
capability_of-assign k id department worker [] = refl
capability_of-assign k id department worker (t ∷ ts) =
    ground (arith, capability_of-assign k id department worker ts)

-- One more worker gets a task of the batch.
add_worker-IsSpread :
    (v : String) (store : WorkerStore) (ids : List String) (tasks : List MissionTask)
    (used : List String) (id capability : String) (w : Worker)
    → contains id ids ≡ true
    → capability_of id tasks ≡ some capability
    → (let department = department_for_capability capability in
        (contains w.id used ≡ false)
        ⊎ ((is_taken department used store ≡ true) × (is_member w.id department store ≡ true)))
    → IsSpread v store ids tasks used
    → IsSpread v store ids tasks (used ++ w.id ∷ [])
add_worker-IsSpread v store ids tasks used id capability w listed needs choice
      (inr (k, (c, known, for_c, taken, member))) =
    inr (
      k,
      (
        c,
        known,
        for_c,
        every-left (list_by_department (department_for_capability c) store) used (w.id ∷ []) taken,
        member,
      ),
    )
add_worker-IsSpread v store ids tasks used id capability w listed needs (inl fresh) (inl few) =
    inl (at_most_one v w.id used fresh few)
add_worker-IsSpread v store ids tasks used id capability w listed needs (inr (taken, member))
      (inl few) =
    elim (same_id w.id v) [
      | yes same ↦
          let department = department_for_capability capability in
          inr (
            id,
            (
              capability,
              listed,
              needs,
              every-left (list_by_department department store) used (w.id ∷ []) taken,
              rw (← same) member,
            ),
          )
      | no apart ↦ inl (omega (arith, few, another v w.id used (ground (arith, apart))))
    ]

-- What holds between two tasks of a batch, for the tasks as they are before it.
record IsUnder (v : String) (store : WorkerStore) (ids : List String) (tasks : List MissionTask)
    (a : Assignments) : Type 0 where
  spread : IsSpread v store ids tasks a.used_in_batch
  same_needs : (k : String) → capability_of k a.tasks ≡ capability_of k tasks

assign_to-IsUnder :
    (v : String) (store : WorkerStore) (ids : List String) (tasks : List MissionTask)
    (chosen : Option Worker) (id : String) (t : MissionTask) (a : Assignments)
    → contains id ids ≡ true
    → capability_of id tasks ≡ some t.required_capability
    → ((w : Worker)
        → chosen ≡ some w
        → let department = department_for_capability t.required_capability in
          (contains w.id a.used_in_batch ≡ false)
          ⊎ ((is_taken department a.used_in_batch store ≡ true)
              × (is_member w.id department store ≡ true)))
    → IsUnder v store ids tasks a
    → IsUnder v store ids tasks (assign_to chosen t a)
unfolding assign_to
assign_to-IsUnder v store ids tasks none id t a listed needs choice h = h
assign_to-IsUnder v store ids tasks (some w) id t a listed needs choice h = record {
  spread =
      add_worker-IsSpread v store ids tasks a.used_in_batch id t.required_capability w listed needs
        (choice w refl) h.spread;
  same_needs = λ k. capability_of-assign k t.id _ w.id a.tasks ∙ h.same_needs k;
}

assign_found-IsUnder :
    (v : String) (lower : String → String) (store : WorkerStore) (ids : List String)
    (tasks : List MissionTask) (found : Option MissionTask) (id : String) (a : Assignments)
    → contains id ids ≡ true
    → find_task id a.tasks ≡ found
    → IsUnder v store ids tasks a
    → IsUnder v store ids tasks (assign_found lower found store a)
unfolding assign_found
assign_found-IsUnder v lower store ids tasks none id a listed e h = h
assign_found-IsUnder v lower store ids tasks (some t) id a listed e h =
    let needs : capability_of id a.tasks ≡ some t.required_capability =
      rw (capability_of, e) refl in
    assign_to-IsUnder v store ids tasks
      (select_for lower t.required_capability a.used_in_batch store) id t a listed
      (sym (h.same_needs id) ∙ needs)
      (select_for_exclusive lower t.required_capability a.used_in_batch store).0 h

assign_batch-IsUnder :
    (v : String) (lower : String → String) (store : WorkerStore) (ids rest : List String)
    (tasks : List MissionTask) (a : Assignments)
    → ((k : String) → contains k rest ≡ true → contains k ids ≡ true)
    → IsUnder v store ids tasks a
    → IsUnder v store ids tasks (assign_batch lower rest store a)
unfolding assign_batch
assign_batch-IsUnder v lower store ids [] tasks a listed h = h
assign_batch-IsUnder v lower store ids (id ∷ rest) tasks a listed h =
    assign_batch-IsUnder v lower store ids rest tasks
      (assign_found lower (find_task id a.tasks) store a) (λ k there. listed k (ground arith))
      (assign_found-IsUnder v lower store ids tasks (find_task id a.tasks) id a
        (listed id (ground (arith, eq_self id))) refl h)

-- No worker gets two tasks of one batch, unless some task of the batch is for a department that the
-- worker belongs to, and all workers of that department get tasks of the batch.
pub assign_batch_spreads :
    (v : String) (lower : String → String) (ids : List String) (store : WorkerStore)
    (a : Assignments)
    → let used = (assign_batch lower ids store (record a { used_in_batch = [] })).used_in_batch in
      (count v used ≤ 1) ⊎ ((id : String) × IsCrowded v store ids a.tasks used id)
assign_batch_spreads v lower ids store a =
    let start : IsUnder v store ids a.tasks (record a { used_in_batch = [] }) = record {
      spread = inl (none_at_first v);
      same_needs = λ k. refl;
    } in
    (assign_batch-IsUnder v lower store ids ids a.tasks (record a { used_in_batch = [] })
      (λ k there. there) start).spread
