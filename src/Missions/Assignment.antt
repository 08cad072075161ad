-- ===== src/Missions/Assignment.antt =====
-- src/v2/application/missions/task_assignment_engine.ts, and how the department orchestrator of
-- src/v2/application/organization/department_orchestrator.ts selects a worker. A department id is
-- named by its type: `dept-` and the type in lower case. `lower` is `toLowerCase`.
mod Tests
pub mod Choice
pub mod Batches
use local_first_se_platform.Base.{
  or_else, String, Bool, not, Option, none, some, List, [], ◌∷◌, ◌++◌, if◌then◌else◌, ◌==◌, filter,
  contains, Dict, lookup, insert,
}
use local_first_se_platform.Workers.Worker.{
  Department, Worker, backend, frontend, qa, devops, architecture, documentation, research, is_busy,
}
use local_first_se_platform.Workers.Store.{
  WorkerStore, list_by_department, find_by_skill, or_next, idle_first,
}
use local_first_se_platform.Missions.Plan.{
  MissionExecutionPlan, MissionTask, TaskStatus, assigned, find_task,
}

-- `departmentForCapability`
unfoldable pub department_for_capability : String → Department
department_for_capability capability =
    if capability == "Architecture"
    then architecture
    else if capability == "QA"
    then qa
    else if capability == "Documentation"
    then documentation
    else backend

-- The type's name in lower case, behind `dept-`.
abbrev pub department_id : Department → String
department_id backend = "dept-backend"
department_id frontend = "dept-frontend"
department_id qa = "dept-qa"
department_id devops = "dept-devops"
department_id architecture = "dept-architecture"
department_id documentation = "dept-documentation"
department_id research = "dept-research"

abbrev pub not_excluded : List String → Worker → Bool
not_excluded exclude w = not (contains w.id exclude)

-- `members.find((w) => !w.isBusy) || members[0]`
unfoldable pub select_worker_for_task : Department → List String → WorkerStore → Option Worker
select_worker_for_task department exclude store =
    idle_first (filter (not_excluded exclude) (list_by_department department store))

unfoldable pub select_worker_for_capability :
    (String → String) → String → List String → WorkerStore → Option Worker
select_worker_for_capability lower capability exclude store =
    find_by_skill (lower capability) exclude store

unfoldable pub select_for : (String → String) → String → List String → WorkerStore → Option Worker
unfolding select_worker_for_capability select_worker_for_task department_for_capability
select_for lower capability used store =
    let department = department_for_capability capability in
    or_next (select_worker_for_capability lower capability used store) (
      or_next (select_worker_for_task department used store)
        (select_worker_for_task department [] store))

-- What `assignPlanTasks` has done so far: the tasks, both maps, and the workers of this batch.
pub record Assignments : Type 0 where
  pub tasks : List MissionTask
  pub department_assignments : Dict (List String)
  pub worker_assignments : Dict (List String)
  pub used_in_batch : List String

unfoldable pub assign_task : String → String → String → List MissionTask → List MissionTask
assign_task id department worker [] = []
assign_task id department worker (t ∷ ts) =
    let rest = assign_task id department worker ts in
    if t.id == id
    then record t {
      assigned_department_id = some department;
      assigned_worker_id = some worker;
      status = assigned;
    }
      ∷ rest
    else t ∷ rest

-- `if (!map[k]) map[k] = []; map[k].push(v)`
unfoldable pub push_at : String → String → Dict (List String) → Dict (List String)
push_at k v m = insert k (or_else (lookup k m) [] ++ v ∷ []) m

unfoldable pub assign_to : Option Worker → MissionTask → Assignments → Assignments
unfolding assign_task push_at department_for_capability
assign_to none t a = a
assign_to (some w) t a =
    let department = department_id (department_for_capability t.required_capability) in
    record {
      tasks = assign_task t.id department w.id a.tasks;
      department_assignments = push_at department t.id a.department_assignments;
      worker_assignments = push_at w.id t.id a.worker_assignments;
      used_in_batch = a.used_in_batch ++ w.id ∷ [];
    }

unfoldable pub assign_found :
    (String → String) → Option MissionTask → WorkerStore → Assignments → Assignments
unfolding assign_to select_for
assign_found lower none store a = a
assign_found lower (some t) store a =
    assign_to (select_for lower t.required_capability a.used_in_batch store) t a

unfoldable pub assign_batch :
    (String → String) → List String → WorkerStore → Assignments → Assignments
unfolding assign_found
assign_batch lower [] store a = a
assign_batch lower (id ∷ ids) store a =
    assign_batch lower ids store (assign_found lower (find_task id a.tasks) store a)

unfoldable pub assign_batches :
    (String → String) → List (List String) → WorkerStore → Assignments → Assignments
unfolding assign_batch
assign_batches lower [] store a = a
assign_batches lower (batch ∷ batches) store a =
    assign_batches lower batches store
      (assign_batch lower batch store (record a { used_in_batch = [] }))

unfoldable pub assign_plan_tasks :
    (String → String) → WorkerStore → MissionExecutionPlan → MissionExecutionPlan
unfolding assign_batches
assign_plan_tasks lower store plan =
    let a = assign_batches lower plan.execution_batches store (record {
      tasks = plan.tasks;
      department_assignments = [];
      worker_assignments = [];
      used_in_batch = [];
    }) in
    record plan {
      tasks = a.tasks;
      department_assignments = a.department_assignments;
      worker_assignments = a.worker_assignments;
    }

unfoldable pub assign_single_task : MissionTask → WorkerStore → Option (String × String)
unfolding select_worker_for_task department_for_capability
assign_single_task t store =
    let department = department_for_capability t.required_capability in
    elim (select_worker_for_task department [] store) [
      | none ↦ none
      | some w ↦ some (department_id department, w.id)
    ]
