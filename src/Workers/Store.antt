-- ===== src/Workers/Store.antt =====
-- src/v2/application/worker/worker_store.ts: the workers by id. A department is given in its
-- normalized form.
use local_first_se_platform.Base.{
  ℕ, String, Bool, true, false, not, ◌||◌, Option, none, some, List, ◌==◌, filter, any, find,
  contains, Dict, lookup, insert, values,
}
use text.Mathlib.Text.{find?}
use local_first_se_platform.Workers.Worker.{
  Department, Worker, backend, frontend, qa, devops, architecture, documentation, research, is_busy,
  is_some, new_worker,
}

abbrev pub WorkerStore : Type 0
WorkerStore = Dict Worker

unfoldable pub register :
    ℕ
    → String
    → String
    → String
    → Department
    → List String
    → Option String
    → WorkerStore
    → Worker × WorkerStore
register now id name role department skills cli_profile_path store =
    let worker = new_worker now id name role department skills cli_profile_path in
    (worker, insert id worker store)

abbrev pub department_eq : Department → Department → Bool
department_eq backend backend = true
department_eq frontend frontend = true
department_eq qa qa = true
department_eq devops devops = true
department_eq architecture architecture = true
department_eq documentation documentation = true
department_eq research research = true
department_eq _ _ = false

unfoldable pub list_by_department : Department → WorkerStore → List Worker
list_by_department department store =
    filter (λ w. department_eq w.department department) (values store)

-- `s.includes(t)`
abbrev pub includes : String → String → Bool
includes s t = is_some (find? s t)

-- `wanted` is the capability in lower case.
unfoldable pub has_skill : String → Worker → Bool
has_skill wanted w =
    any (λ skill. skill == wanted || includes skill wanted || includes wanted skill) w.skills

-- `a || b`
abbrev pub or_next : Option Worker → Option Worker → Option Worker
or_next none o = o
or_next (some w) o = some w

-- The first idle worker, or the first of all.
abbrev pub idle_first : List Worker → Option Worker
idle_first ws = or_next (find (λ w. not (is_busy w)) ws) (find (λ w. true) ws)

-- The workers that `findBySkill` sorts, the idle ones first, to take the first of them.
unfoldable pub skilled : String → List String → WorkerStore → List Worker
skilled wanted exclude_ids store =
    filter (has_skill wanted) (filter (λ w. not (contains w.id exclude_ids)) (values store))

unfoldable pub find_by_skill : String → List String → WorkerStore → Option Worker
find_by_skill wanted exclude_ids store = idle_first (skilled wanted exclude_ids store)

unfoldable pub set_cli_profile_path : String → Option String → WorkerStore → WorkerStore × Bool
set_cli_profile_path id path store = elim (lookup id store) [
  | none ↦ (store, false)
  | some w ↦ (insert id (record w { cli_profile_path = path }) store, true)
]
