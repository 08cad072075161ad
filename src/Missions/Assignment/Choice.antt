-- ===== src/Missions/Assignment/Choice.antt =====
-- Whom the assignment of a task can choose.
use local_first_se_platform.Base.{
  any, ◌==◌, eq_self, arith, String, ◌≡◌, refl, sym, ap, ◌∙◌, subst, ◌≢◌, ◌⊎◌, inl, inr, Bool, true,
  false, not, ◌&&◌, Option, none, some, List, [], ◌∷◌, if◌then◌else◌, Bool-cases, Option-cases,
  filter, every, find, contains, values,
}
use local_first_se_platform.Workers.Worker.{Department, Worker, is_busy}
use local_first_se_platform.Workers.Store.{
  WorkerStore, or_next, list_by_department, find_by_skill, skilled, idle_first, has_skill,
}
use local_first_se_platform.Missions.Assignment.{
  department_for_capability, not_excluded, select_worker_for_task, select_worker_for_capability,
  select_for,
}

found_at :
    (p q : Worker → Bool) (x w : Worker) (rest : List Worker) (c : Bool)
    → p x ≡ true
    → (if c then some x else find q rest) ≡ some w
    → (find q rest ≡ some w → p w ≡ true)
    → p w ≡ true
found_at p q x w rest true e h later = cc
found_at p q x w rest false e h later = later h

found_here :
    (p q : Worker → Bool) (x w : Worker) (rest : List Worker) (b : Bool)
    → p x ≡ b
    → find q (if b then x ∷ rest else rest) ≡ some w
    → (find q rest ≡ some w → p w ≡ true)
    → p w ≡ true
found_here p q x w rest true e h later = found_at p q x w rest (q x) e h later
found_here p q x w rest false e h later = later h

find-filter :
    (p q : Worker → Bool) (ws : List Worker) (w : Worker)
    → find q (filter p ws) ≡ some w
    → p w ≡ true
find-filter p q [] w h = cc
find-filter p q (x ∷ xs) w h = found_here p q x w (filter p xs) (p x) refl h (find-filter p q xs w)

or_next-some :
    (a b : Option Worker) (w : Worker) → or_next a b ≡ some w → (a ≡ some w) ⊎ (b ≡ some w)
or_next-some none b w h = inr h
or_next-some (some x) b w h = inl h

or_next-none : (a b : Option Worker) → or_next a b ≡ none → (a ≡ none) × (b ≡ none)
or_next-none none b h = (refl, h)
or_next-none (some x) b h = cc

idle_first-none : (ws : List Worker) → idle_first ws ≡ none → ws ≡ []
idle_first-none [] h = refl
idle_first-none (x ∷ xs) h =
    let (never, nobody) = or_next-none (find (λ w. not (is_busy w)) (x ∷ xs)) (some x) h in cc

idle_first-filter :
    (p : Worker → Bool) (ws : List Worker) (w : Worker)
    → idle_first (filter p ws) ≡ some w
    → p w ≡ true
idle_first-filter p ws w h =
    elim (or_next-some (find (λ x. not (is_busy x)) (filter p ws)) (find (λ x. true) (filter p ws))
      w h) [
        | inl e ↦ find-filter p (λ x. not (is_busy x)) ws w e
        | inr e ↦ find-filter p (λ x. true) ws w e
      ]

false_of_not : (b : Bool) → not b ≡ true → b ≡ false
false_of_not true h = cc
false_of_not false h = refl

-- Everybody of a department is among `used`.
abbrev pub is_taken : Department → List String → WorkerStore → Bool
is_taken department used store =
    every (λ w. contains w.id used) (list_by_department department store)

out_true :
    (w : Worker) (rest : List Worker) (b : Bool)
    → b ≡ true
    → (if not b then w ∷ rest else rest) ≡ []
    → rest ≡ []
out_true w rest true e h = h
out_true w rest false e h = cc

out_false :
    (w : Worker) (rest : List Worker) (b : Bool)
    → b ≡ false
    → (if not b then w ∷ rest else rest) ≢ []
out_false w rest true e h = cc
out_false w rest false e h = cc

filtered_out :
    (used : List String) (ws : List Worker)
    → filter (not_excluded used) ws ≡ []
    → every (λ w. contains w.id used) ws ≡ true
filtered_out used [] h = refl
filtered_out used (w ∷ ws) h = elim (Bool-cases (contains w.id used)) [
  | inl e ↦
      rw e
        (filtered_out used ws (out_true w (filter (not_excluded used) ws) (contains w.id used) e h))
  | inr e ↦ absurd (out_false w (filter (not_excluded used) ws) (contains w.id used) e h)
]

find-filter_fused :
    (p q : Worker → Bool) (ws : List Worker) → find q (filter p ws) ≡ find (λ w. p w && q w) ws
find-filter_fused p q [] = refl
find-filter_fused p q (x ∷ xs) = elim (Bool-cases (p x)) [
  | inl e ↦ rw e (ap (λ o. if q x then some x else o) (find-filter_fused p q xs))
  | inr e ↦ rw e (find-filter_fused p q xs)
]

idle_first-filter_twice :
    (p r : Worker → Bool) (ws : List Worker) (w : Worker)
    → idle_first (filter p (filter r ws)) ≡ some w
    → r w ≡ true
idle_first-filter_twice p r ws w h =
    elim (or_next-some (find (λ x. not (is_busy x)) (filter p (filter r ws)))
      (find (λ x. true) (filter p (filter r ws))) w h) [
        | inl e ↦
            find-filter r _ ws w
              (sym (find-filter_fused p (λ x. not (is_busy x)) (filter r ws)) ∙ e)
        | inr e ↦ find-filter r _ ws w (sym (find-filter_fused p (λ x. true) (filter r ws)) ∙ e)
      ]

nobody_left : (ws : List Worker) → every (λ w. contains w.id []) ws ≡ true → ws ≡ []
nobody_left [] h = refl
nobody_left (w ∷ ws) h = cc

-- A worker with the id `v` is in the department.
abbrev pub is_member : String → Department → WorkerStore → Bool
is_member v department store = any (λ w. w.id == v) (list_by_department department store)

find-any :
    (p q : Worker → Bool) (ws : List Worker) (w : Worker)
    → find q (filter p ws) ≡ some w
    → any (λ x. x.id == w.id) ws ≡ true
find-any p q [] w h = cc
find-any p q (x ∷ xs) w h = elim (Bool-cases (p x)) [
  | inl kept ↦ elim (Bool-cases (q x)) [
    | inl here ↦
        let k : some x ≡ some w = rw (kept, here) at h in
        let same : x ≡ w = cc in
        let same_id : x.id ≡ w.id = ap (λ (y : Worker). y.id) same in rw (same_id, eq_self) refl
    | inr other ↦ ground (arith, find-any p q xs w (rw (kept, other) at h))
  ]
  | inr dropped ↦ ground (arith, find-any p q xs w (rw dropped at h))
]

idle_first-any :
    (p : Worker → Bool) (ws : List Worker) (w : Worker)
    → idle_first (filter p ws) ≡ some w
    → any (λ x. x.id == w.id) ws ≡ true
idle_first-any p ws w h =
    elim (or_next-some (find (λ x. not (is_busy x)) (filter p ws)) (find (λ x. true) (filter p ws))
      w h) [
        | inl e ↦ find-any p (λ x. not (is_busy x)) ws w e
        | inr e ↦ find-any p (λ x. true) ws w e
      ]

second_choice :
    (department : Department) (used : List String) (store : WorkerStore) (w : Worker)
    → or_next
        (select_worker_for_task department used store)
        (select_worker_for_task department [] store)
      ≡ some w
    → (contains w.id used ≡ false)
      ⊎ ((is_taken department used store ≡ true) × (is_member w.id department store ≡ true))
unfolding select_worker_for_task
second_choice department used store w h =
    elim (Option-cases
      (idle_first (filter (not_excluded used) (list_by_department department store)))) [
        | inl none_free ↦ inr (
          filtered_out used (list_by_department department store) (idle_first-none _ none_free),
          idle_first-any (not_excluded []) (list_by_department department store) w
              (rw none_free at h),
        )
        | inr (x, e) ↦
            let same : x ≡ w = cc in
            inl (
              subst (λ (y : Worker). contains y.id used ≡ false) same
                (false_of_not (contains x.id used) (
                  idle_first-filter (not_excluded used) (list_by_department department store) x e)))
      ]

-- A worker who already has a task of the batch only gets another one of its own department, if that
-- is taken as a whole; and a task is left without a worker only if that department has nobody.
pub select_for_exclusive :
    (lower : String → String) (capability : String) (used : List String) (store : WorkerStore)
    → let department = department_for_capability capability in
      let chosen = select_for lower capability used store in
      ((w : Worker)
        → chosen ≡ some w
        → (contains w.id used ≡ false)
          ⊎ ((is_taken department used store ≡ true) × (is_member w.id department store ≡ true)))
      × (chosen ≡ none → list_by_department department store ≡ [])
unfolding select_for select_worker_for_capability select_worker_for_task find_by_skill skilled
select_for_exclusive lower capability used store =
    let department = department_for_capability capability in
    let skill = has_skill (lower capability) in
    let first = idle_first (filter skill (filter (not_excluded used) (values store))) in
    let second = select_worker_for_task department used store in
    let third = select_worker_for_task department [] store in
    (
      λ w h. elim (or_next-some first (or_next second third) w h) [
        | inl e ↦ inl (
            false_of_not (contains w.id used)
              (idle_first-filter_twice skill (not_excluded used) (values store) w e))
        | inr e ↦ second_choice department used store w e
      ],
      λ h.
          let rest = (or_next-none first (or_next second third) h).1 in
          nobody_left (list_by_department department store) (
            filtered_out [] (list_by_department department store)
              (idle_first-none _ (or_next-none second third rest).1)),
    )
