-- ===== src/Missions/Engine/Stamps.antt =====
-- What every sequence of the engine's operations keeps.
use local_first_se_platform.Base.{
  any, ◌||◌, ◌&&◌, nat_eq, eq_self, arith, ℕ, String, ◌≡◌, refl, sym, ap, ◌∙◌, subst, ◌≢◌, ◌⊎◌, inl,
  inr, Bool, true, false, not, Option, none, some, List, [], ◌∷◌, if◌then◌else◌, Bool-cases,
  Option-cases, ◌==◌, every, lookup, lookup-insert,
}
use local_first_se_platform.Missions.Plan.{MissionExecutionPlan, completed, set_status}
use local_first_se_platform.Missions.Engine.{
  MissionStatus, created, started, paused, cancelled, finished, archived, Mission, mission_started,
  mission_paused, mission_failed, mission_completed, task_completed, Engine, emit, set_mission,
  is_running, is_paused, is_completed, create_mission, decompose_and_plan_mission, mark_task,
  start_task, start_plan, change_mission, start_mission, pause_mission, resume_mission,
  cancel_mission, complete_mission, archive_mission, complete_planned, complete_task, fail_task,
}
use local_first_se_platform.Missions.Engine.Changes.{
  mark_task-missions, start_task-missions, fail_task-missions, change_mission-lookup,
  change_mission-missing, starts_plan-keeps, finished_with,
}

-- The engine's operations, with their arguments.
pub data Operation : Type 0 where
  creates : String → String → String → ℕ → Operation
  plans : String → String → String → ℕ → MissionExecutionPlan → Operation
  starts pauses resumes cancels completes archives : String → ℕ → Operation
  starts_task fails_task : String → String → Operation
  completes_task : String → String → ℕ → Operation

unfoldable pub perform : Operation → Engine → Engine
perform (creates id title goal now) s = create_mission id title goal now s
perform (plans id title goal now plan) s = decompose_and_plan_mission id title goal now plan s
perform (starts id now) s = (start_mission id now s).0
perform (pauses id now) s = (pause_mission id now s).0
perform (resumes id now) s = (resume_mission id now s).0
perform (cancels id now) s = (cancel_mission id now s).0
perform (completes id now) s = (complete_mission id now s).0
perform (archives id now) s = (archive_mission id now s).0
perform (starts_task t id) s = start_task t id s
perform (fails_task t id) s = fail_task t id s
perform (completes_task t id now) s = complete_task t id now s

unfoldable pub perform_all : List Operation → Engine → Engine
perform_all [] s = s
perform_all (o ∷ os) s = perform_all os (perform o s)

abbrev pub no_missions : Engine
no_missions = record { missions = []; execution_plans = []; events = [] }

abbrev is_finished : MissionStatus → Bool
is_finished finished = true
is_finished _ = false

-- The operation completes a mission, or a task of it, at a time.
abbrev pub completes_at : String → ℕ → Operation → Bool
completes_at id t (completes other now) = other == id && nat_eq now t
completes_at id t (completes_task task other now) = other == id && nat_eq now t
completes_at id t _ = false

-- The stamp is the time of the mission's last change, and that was an operation which completes it.
abbrev Stamp : (String → ℕ → Type 0) → String → Mission → Type 0
Stamp P id m = (m.completed_at ≡ some m.updated_at) × P id m.updated_at

IsStamped : (String → ℕ → Type 0) → Engine → Type 0
IsStamped P s =
    (id : String) (m : Mission) → lookup id s.missions ≡ some m → m.status ≡ finished → Stamp P id m

either_entry :
    (refused same : Bool) (x : Option Mission) (c m : Mission)
    → (if refused then x else if same then some c else x) ≡ some m
    → (x ≡ some m) ⊎ ((c ≡ m) × (same ≡ true))
either_entry true same x c m h = inl h
either_entry false true x c m h = inr (cc, refl)
either_entry false false x c m h = inl h

equal_ids : (a b : String) → (a == b) ≡ true → a ≡ b
equal_ids a b h = ground arith

or_now : (a b : Bool) → a ≡ true → (a || b) ≡ true
or_now a b h = ground arith

or_later : (a b : Bool) → b ≡ true → (a || b) ≡ true
or_later a b h = ground arith

own_time : (id : String) (now : ℕ) → (id == id && nat_eq now now) ≡ true
own_time id now = ground (arith, eq_self id)

module _ (P : String → ℕ → Type 0) where
  same-IsStamped : (s u : Engine) → u.missions ≡ s.missions → IsStamped P s → IsStamped P u
  unfolding IsStamped
  same-IsStamped s u e h id m found = h id m (ap (lookup id) (sym e) ∙ found)

  change_mission-IsStamped :
      (refuses : MissionStatus → Bool) (change : Mission → Mission) (then_do : Engine → Engine)
      (id : String) (s : Engine)
      → ((u : Engine) → (then_do u).missions ≡ u.missions)
      → ((m : Mission) → (change m).status ≡ finished → Stamp P id (change m))
      → IsStamped P s
      → IsStamped P (change_mission refuses change then_do id s).0
  unfolding IsStamped
  change_mission-IsStamped refuses change then_do id s keeps stamps h other m found =
      elim (Option-cases (lookup id s.missions)) [
        | inl missing ↦ h other m (
            ap (λ r. lookup other r.0.missions)
              (sym (change_mission-missing refuses change then_do id s missing))
            ∙ found)
        | inr (old, known) ↦
            let seen = change_mission-lookup refuses change then_do id other s old keeps known in
            λ done.
              elim (either_entry (refuses old.status) (id == other) _ (change old) m
                (sym seen ∙ found)) [
                  | inl kept ↦ h other m kept done
                  | inr (e, same) ↦
                      subst (λ k. Stamp P other k) e
                        (subst (λ i. Stamp P i (change old)) (equal_ids id other same)
                          (stamps old (subst (λ k. k.status ≡ finished) (sym e) done)))
                ]
      ]

  finished_only : (st : MissionStatus) → is_finished st ≡ false → st ≢ finished
  finished_only st other e = cc

  sets-IsStamped :
      (refuses : MissionStatus → Bool) (st : MissionStatus) (now : ℕ) (then_do : Engine → Engine)
      (id : String) (s : Engine)
      → is_finished st ≡ false
      → ((u : Engine) → (then_do u).missions ≡ u.missions)
      → IsStamped P s
      → IsStamped P (change_mission refuses (set_mission st now) then_do id s).0
  sets-IsStamped refuses st now then_do id s other keeps h =
      change_mission-IsStamped refuses (set_mission st now) then_do id s keeps
        (λ m done. absurd (finished_only st other done)) h

  complete_mission-IsStamped :
      (id : String) (now : ℕ) (s : Engine)
      → P id now
      → IsStamped P s
      → IsStamped P (complete_mission id now s).0
  unfolding complete_mission
  complete_mission-IsStamped id now s at_now h =
      change_mission-IsStamped (λ st. false) (finished_with now) (emit mission_completed id) id s
        (λ u. refl) (λ m done. (refl, at_now)) h

  complete_planned-IsStamped :
      (plan : Option MissionExecutionPlan) (t id : String) (now : ℕ) (s : Engine)
      → P id now
      → IsStamped P s
      → IsStamped P (complete_planned plan t id now s)
  unfolding complete_planned
  complete_planned-IsStamped none t id now s at_now h = h
  complete_planned-IsStamped (some plan) t id now s at_now h =
      let marked = mark_task completed task_completed t id plan s in
      let kept =
        same-IsStamped s marked (mark_task-missions completed task_completed t id plan s) h in
      elim (Bool-cases (every (λ u. is_completed u.status) (set_status t completed plan.tasks))) [
        | inl e ↦ rw e (complete_mission-IsStamped id now marked at_now kept)
        | inr e ↦ rw e kept
      ]

  complete_task-IsStamped :
      (t id : String) (now : ℕ) (s : Engine)
      → P id now
      → IsStamped P s
      → IsStamped P (complete_task t id now s)
  unfolding complete_task
  complete_task-IsStamped t id now s at_now h =
      complete_planned-IsStamped (lookup id s.execution_plans) t id now s at_now h

  create_mission-IsStamped :
      (id title goal : String) (now : ℕ) (s : Engine)
      → IsStamped P s
      → IsStamped P (create_mission id title goal now s)
  unfolding create_mission IsStamped
  create_mission-IsStamped id title goal now s h other m found done =
      let fresh : Mission = record {
        id = id;
        title = title;
        goal = goal;
        status = created;
        created_at = now;
        updated_at = now;
        completed_at = none;
      } in
      elim (either_entry false (id == other) (lookup other s.missions) fresh m
        (sym (lookup-insert id other fresh s.missions) ∙ found)) [
          | inl kept ↦ h other m kept done
          | inr (e, same) ↦
              absurd (finished_only created refl (ap (λ (k : Mission). k.status) e ∙ done))
        ]

  perform-IsStamped :
      (o : Operation) (s : Engine)
      → ((id : String) (t : ℕ) → completes_at id t o ≡ true → P id t)
      → IsStamped P s
      → IsStamped P (perform o s)
  unfolding perform decompose_and_plan_mission start_mission pause_mission resume_mission
      cancel_mission archive_mission
  perform-IsStamped (creates id title goal now) s times h =
      create_mission-IsStamped id title goal now s h
  perform-IsStamped (plans id title goal now plan) s times h =
      same-IsStamped (create_mission id title goal now s) _ refl
        (create_mission-IsStamped id title goal now s h)
  perform-IsStamped (starts id now) s times h =
      sets-IsStamped is_running started now
        (λ u. start_plan (lookup id u.execution_plans) id (emit mission_started id u)) id s refl
        (starts_plan-keeps id) h
  perform-IsStamped (pauses id now) s times h =
      sets-IsStamped (λ st. not (is_running st)) paused now (emit mission_paused id) id s refl
        (λ u. refl) h
  perform-IsStamped (resumes id now) s times h =
      sets-IsStamped (λ st. not (is_paused st)) started now (emit mission_started id) id s refl
        (λ u. refl) h
  perform-IsStamped (cancels id now) s times h =
      sets-IsStamped (λ st. false) cancelled now (emit mission_failed id) id s refl (λ u. refl) h
  perform-IsStamped (completes id now) s times h =
      complete_mission-IsStamped id now s (times id now (own_time id now)) h
  perform-IsStamped (archives id now) s times h =
      sets-IsStamped (λ st. false) archived now (λ u. u) id s refl (λ u. refl) h
  perform-IsStamped (starts_task t id) s times h = same-IsStamped s _ (start_task-missions t id s) h
  perform-IsStamped (fails_task t id) s times h = same-IsStamped s _ (fail_task-missions t id s) h
  perform-IsStamped (completes_task t id now) s times h =
      complete_task-IsStamped t id now s (times id now (own_time id now)) h

  perform_all-IsStamped :
      (os : List Operation) (s : Engine)
      → ((id : String) (t : ℕ) → any (completes_at id t) os ≡ true → P id t)
      → IsStamped P s
      → IsStamped P (perform_all os s)
  unfolding perform_all
  perform_all-IsStamped [] s times h = h
  perform_all-IsStamped (o ∷ os) s times h =
      perform_all-IsStamped os (perform o s)
        (λ id t e. times id t (or_later (completes_at id t o) _ e))
        (perform-IsStamped o s (λ id t e. times id t (or_now (completes_at id t o) _ e)) h)

no_missions-IsStamped : (P : String → ℕ → Type 0) → IsStamped P no_missions
unfolding IsStamped lookup
no_missions-IsStamped P id m found = cc

-- Whatever operations the engine has performed, in whatever order: a mission whose status is
-- COMPLETED has the time of its last change as the time of its completion, and an operation that
-- completes this mission, or a task of it, was performed at that time.
pub completed_missions_are_stamped :
    (os : List Operation) (id : String) (m : Mission)
    → lookup id (perform_all os no_missions).missions ≡ some m
    → m.status ≡ finished
    → (m.completed_at ≡ some m.updated_at) × (any (completes_at id m.updated_at) os ≡ true)
unfolding IsStamped
completed_missions_are_stamped os id m found done =
    perform_all-IsStamped (λ v t. any (completes_at v t) os ≡ true) os no_missions (λ v t e. e)
      (no_missions-IsStamped (λ v t. any (completes_at v t) os ≡ true)) id m found done
