-- ===== src/Missions/Engine/Changes.antt =====
-- How the operations of the engine change the status of a mission.
use local_first_se_platform.Base.{
  ℕ, String, ◌≡◌, refl, ap, ◌∙◌, inl, inr, Bool, true, false, not, Option, none, some, List, [],
  ◌∷◌, if◌then◌else◌, Bool-cases, Option-cases, ◌==◌, eq_self, every, lookup, lookup-insert,
}
use local_first_se_platform.Missions.Plan.{
  MissionExecutionPlan, MissionTask, TaskStatus, running, completed, failed, set_status, find_task,
}
use local_first_se_platform.Missions.Engine.{
  MissionStatus, started, paused, finished, Mission, EventType, mission_started, mission_paused,
  mission_completed, task_started, task_completed, task_failed, Engine, emit, put_mission,
  set_mission, is_running, is_paused, is_startable, is_completed, mark_task, start_task,
  start_tasks, start_plan, change_mission, pause_mission, resume_mission, complete_mission,
  complete_planned, mark_found, mark_planned, change_found, complete_task, fail_task,
}

pub mark_task-missions :
    (st : TaskStatus) (e : EventType) (t id : String) (plan : MissionExecutionPlan) (s : Engine)
    → (mark_task st e t id plan s).missions ≡ s.missions
unfolding mark_task mark_found
mark_task-missions st e t id plan s = elim (Option-cases (find_task t plan.tasks)) [
  | inl none_found ↦ rw none_found refl
  | inr (task, found) ↦ rw found refl
]

mark_planned-missions :
    (plan : Option MissionExecutionPlan) (st : TaskStatus) (e : EventType) (t id : String)
    (s : Engine)
    → (mark_planned plan st e t id s).missions ≡ s.missions
unfolding mark_planned
mark_planned-missions none st e t id s = refl
mark_planned-missions (some plan) st e t id s = mark_task-missions st e t id plan s

pub start_task-missions : (t id : String) (s : Engine) → (start_task t id s).missions ≡ s.missions
unfolding start_task
start_task-missions t id s =
    mark_planned-missions (lookup id s.execution_plans) running task_started t id s

started_if-missions :
    (b : Bool) (t id : String) (s : Engine)
    → (if b then start_task t id s else s).missions ≡ s.missions
started_if-missions true t id s = start_task-missions t id s
started_if-missions false t id s = refl

start_tasks-missions :
    (ts : List MissionTask) (id : String) (s : Engine) → (start_tasks ts id s).missions ≡ s.missions
unfolding start_tasks
start_tasks-missions [] id s = refl
start_tasks-missions (t ∷ ts) id s =
    start_tasks-missions ts id (if is_startable t.status then start_task t.id id s else s)
    ∙ started_if-missions (is_startable t.status) t.id id s

start_plan-missions :
    (plan : Option MissionExecutionPlan) (id : String) (s : Engine)
    → (start_plan plan id s).missions ≡ s.missions
unfolding start_plan
start_plan-missions none id s = refl
start_plan-missions (some plan) id s = start_tasks-missions plan.tasks id s

pub fail_task-missions : (t id : String) (s : Engine) → (fail_task t id s).missions ≡ s.missions
unfolding fail_task
fail_task-missions t id s =
    mark_planned-missions (lookup id s.execution_plans) failed task_failed t id s

-- A status change shows in the mission's own entry, and in no other.
pub change_mission-lookup :
    (refuses : MissionStatus → Bool) (change : Mission → Mission) (then_do : Engine → Engine)
    (id other : String) (s : Engine) (m : Mission)
    → ((u : Engine) → (then_do u).missions ≡ u.missions)
    → lookup id s.missions ≡ some m
    → lookup other (change_mission refuses change then_do id s).0.missions ≡ (
        if refuses m.status
        then lookup other s.missions
        else if id == other
        then some (change m)
        else lookup other s.missions)
unfolding change_mission change_found
change_mission-lookup refuses change then_do id other s m keeps found =
    elim (Bool-cases (refuses m.status)) [
      | inl e ↦ rw (found, e) refl
      | inr e ↦
          rw (found, e)
            (ap (lookup other) (keeps (put_mission id (change m) s))
              ∙ lookup-insert id other (change m) s.missions)
    ]

change_mission-flag :
    (refuses : MissionStatus → Bool) (change : Mission → Mission) (then_do : Engine → Engine)
    (id : String) (s : Engine) (m : Mission)
    → lookup id s.missions ≡ some m
    → (change_mission refuses change then_do id s).1 ≡ not (refuses m.status)
unfolding change_mission change_found
change_mission-flag refuses change then_do id s m found = elim (Bool-cases (refuses m.status)) [
  | inl e ↦ rw (found, e) refl
  | inr e ↦ rw (found, e) refl
]

pub change_mission-missing :
    (refuses : MissionStatus → Bool) (change : Mission → Mission) (then_do : Engine → Engine)
    (id : String) (s : Engine)
    → lookup id s.missions ≡ none
    → change_mission refuses change then_do id s ≡ (s, false)
unfolding change_mission change_found
change_mission-missing refuses change then_do id s missing = rw missing refl

pub starts_plan-keeps :
    (id : String) (u : Engine)
    → (start_plan (lookup id u.execution_plans) id (emit mission_started id u)).missions
      ≡ u.missions
starts_plan-keeps id u =
    start_plan-missions (lookup id u.execution_plans) id (emit mission_started id u)

pause_mission-lookup :
    (id other : String) (now : ℕ) (s : Engine) (m : Mission)
    → lookup id s.missions ≡ some m
    → lookup other (pause_mission id now s).0.missions ≡ (
        if not (is_running m.status)
        then lookup other s.missions
        else if id == other
        then some (set_mission paused now m)
        else lookup other s.missions)
unfolding pause_mission
pause_mission-lookup id other now s m found =
    change_mission-lookup (λ st. not (is_running st)) (set_mission paused now)
      (emit mission_paused id) id other s m (λ u. refl) found

resume_mission-lookup :
    (id other : String) (now : ℕ) (s : Engine) (m : Mission)
    → lookup id s.missions ≡ some m
    → lookup other (resume_mission id now s).0.missions ≡ (
        if not (is_paused m.status)
        then lookup other s.missions
        else if id == other
        then some (set_mission started now m)
        else lookup other s.missions)
unfolding resume_mission
resume_mission-lookup id other now s m found =
    change_mission-lookup (λ st. not (is_paused st)) (set_mission started now)
      (emit mission_started id) id other s m (λ u. refl) found

double_not : (b : Bool) → not (not b) ≡ b
double_not true = refl
double_not false = refl

pause_mission-flag :
    (id : String) (now : ℕ) (s : Engine) (m : Mission)
    → lookup id s.missions ≡ some m
    → (pause_mission id now s).1 ≡ is_running m.status
unfolding pause_mission
pause_mission-flag id now s m found =
    change_mission-flag (λ st. not (is_running st)) (set_mission paused now)
      (emit mission_paused id) id s m found
    ∙ double_not (is_running m.status)

resume_mission-flag :
    (id : String) (now : ℕ) (s : Engine) (m : Mission)
    → lookup id s.missions ≡ some m
    → (resume_mission id now s).1 ≡ is_paused m.status
unfolding resume_mission
resume_mission-flag id now s m found =
    change_mission-flag (λ st. not (is_paused st)) (set_mission started now)
      (emit mission_started id) id s m found
    ∙ double_not (is_paused m.status)

-- Pausing works on a running mission only, and resuming it then always works: the mission is
-- running again, and only its time stamp has changed. A mission that does not run stays as it is.
pub pause_mission_resumes :
    (id : String) (now later : ℕ) (s : Engine) (m : Mission)
    → lookup id s.missions ≡ some m
    → let (between, did) = pause_mission id now s in
      let (after, undone) = resume_mission id later between in
      (did ≡ is_running m.status)
      × (m.status ≡ started
          → (undone ≡ true) × (lookup id after.missions ≡ some (record m { updated_at = later })))
      × (is_running m.status ≡ false → lookup id between.missions ≡ some m)
pause_mission_resumes id now later s m found =
    let seen = pause_mission-lookup id id now s m found in
    (
      pause_mission-flag id now s m found,
      λ runs.
          let stored : lookup id (pause_mission id now s).0.missions
              ≡ some (set_mission paused now m) =
            seen ∙ rw (runs, eq_self) refl in
          (
            resume_mission-flag id later (pause_mission id now s).0 _ stored,
            resume_mission-lookup id id later (pause_mission id now s).0 _ stored
                ∙ rw (eq_self, runs) refl,
          ),
      λ idle. seen ∙ rw idle found,
    )

abbrev pub finished_with : ℕ → Mission → Mission
finished_with now m = record m { status = finished; completed_at = some now; updated_at = now }

complete_mission-own :
    (id : String) (now : ℕ) (s : Engine) (m : Mission)
    → lookup id s.missions ≡ some m
    → lookup id (complete_mission id now s).0.missions ≡ some (finished_with now m)
unfolding complete_mission
complete_mission-own id now s m found =
    change_mission-lookup (λ st. false) (finished_with now) (emit mission_completed id) id id s m
      (λ u. refl) found
    ∙ rw eq_self refl

-- Completing a task of a planned mission completes the mission just if every task of the plan is
-- then COMPLETED, whatever the mission's own status has been; otherwise the mission stays as it is.
pub complete_task_completes_mission :
    (t id : String) (now : ℕ) (s : Engine) (m : Mission) (plan : MissionExecutionPlan)
    → lookup id s.missions ≡ some m
    → lookup id s.execution_plans ≡ some plan
    → lookup id (complete_task t id now s).missions
      ≡ some (
          if every (λ u. is_completed u.status) (set_status t completed plan.tasks)
          then record m { status = finished; completed_at = some now; updated_at = now }
          else m)
unfolding complete_task complete_planned
complete_task_completes_mission t id now s m plan found planned =
    let marked = mark_task completed task_completed t id plan s in
    let known : lookup id marked.missions ≡ some m =
      ap (lookup id) (mark_task-missions completed task_completed t id plan s) ∙ found in
    rw planned
      (elim (Bool-cases (every (λ u. is_completed u.status) (set_status t completed plan.tasks))) [
        | inl e ↦ rw e (complete_mission-own id now marked m known)
        | inr e ↦ rw e known
      ])
