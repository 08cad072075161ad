-- ===== src/Reasoning/Tests.antt =====
-- Races between the requests of one worker.
use local_first_se_platform.Base.{
  differs, ◌≤◌, String, ◌≡◌, refl, ap, ◌∙◌, ◌≢◌, true, false, none, some, List, [], ◌∷◌, arith,
  same_id, length, one_if, lookup, insert, remove, has,
}
use local_first_se_platform.Workers.Worker.{
  Worker, ActiveExecution, completed, failed, CompletionOptions, begin_execution,
  complete_execution, new_worker, backend,
}
use local_first_se_platform.Workers.Store.{WorkerStore}
use local_first_se_platform.Plugins.Loader.{Manifest}
use local_first_se_platform.Plugins.Registry.{Registry, register, empty_registry, get_plugin}
use local_first_se_platform.Reasoning.{
  Request, Waiting, Coordinator, admit_to, admit, take_out, execution_of, execution_on, complete_at,
  begin_on, start_known, start, interrupt_on, interrupt, end_interrupt, Event, admits, selects,
  finishes, interrupts, interrupt_ends, nth_first, select_with, step, run, fresh,
}
use local_first_se_platform.Reasoning.Limits.{active_requests_bounded}
use local_first_se_platform.Reasoning.SingleFlight.{
  busy_of, running, IsSingle, requests_are_single_flight, finish_ends_other_execution,
}
use local_first_se_platform.Reasoning.Orphans.{named, IsUnworked}
use local_first_se_platform.Reasoning.Leaks.{raced_request_is_never_released}

worker : Worker
worker = new_worker 0 "w" "Bob" "dev" backend [] none

abbrev store : WorkerStore
store = ("w", worker) ∷ []

abbrev request : String → Request
request id = record { request_id = id; worker_id = "w"; task_id = none; goal = "g" }

abbrev options : CompletionOptions
options = record { duration_ms = 1; files_touched = []; token_usage = 1 }

abbrev races : List Event
races = admits (request "a") ∷ admits (request "b") ∷ selects "a" (some "p") 1 ∷ []

-- The plugin of "a" has been found; "b" waits for its own.
raced : Coordinator
raced = run races (fresh store)

abbrev later : List Event
later = finishes "a" completed options 2 ∷ admits (request "c") ∷ []

active_requests_bounded_example : length (run races (fresh store)).active ≤ 5
active_requests_bounded_example = active_requests_bounded races (fresh store) (omega arith)

fresh-IsSingle : IsSingle (fresh store)
unfolding running lookup one_if worker new_worker
fresh-IsSingle v = ground arith

requests_are_single_flight_example :
    running "w" (run races (fresh store)).executing
    ≡ one_if (busy_of (lookup "w" (run races (fresh store)).store))
requests_are_single_flight_example =
    requests_are_single_flight races (fresh store) "w" refl fresh-IsSingle

abbrev waiting : String → Waiting
waiting id = record { request = request id; known = true }

busy_worker : Worker
busy_worker = elim (begin_execution (execution_of (request "a") "p" 1) worker) [
  | none ↦ worker
  | some w ↦ w
]

raced_store : raced.store ≡ ("w", busy_worker) ∷ []
unfolding raced run step admit admit_to take_out select_with start start_known begin_on
    begin_execution worker new_worker lookup insert same_id busy_worker
raced_store = refl

busy_worker_task : busy_worker.active_execution ≡ some (execution_of (request "a") "p" 1)
unfolding busy_worker begin_execution worker new_worker
busy_worker_task = refl

a_is_not_b : ◌≢◌ {A = String} "a" "b"
unfolding same_id
a_is_not_b = differs "a" "b" refl

raced-IsUnworked : IsUnworked "b" raced.store
unfolding lookup
raced-IsUnworked v a e f =
    let k : execution_on (lookup v (("w", busy_worker) ∷ [])) ≡ some a = rw raced_store at e in
    let named : execution_of (request "a") "p" 1 ≡ a = ground (arith, busy_worker_task) in
    a_is_not_b (ap (λ (x : ActiveExecution). x.request_id) named ∙ f)

raced_request_is_never_released_example :
    has "b" (run later (step (selects "b" (some "p") 2) raced)).active ≡ true
unfolding raced run step admit admit_to take_out select_with start start_known begin_on
    begin_execution worker new_worker lookup insert same_id has named one_if busy_worker
raced_request_is_never_released_example =
    raced_request_is_never_released later raced "b" "p" 2 (waiting "b") [] busy_worker refl refl
      refl refl refl refl refl refl raced-IsUnworked refl

-- "a" was interrupted, and "c" has begun on the same worker since; the answer of "a" is still due.
abbrev interrupted_events : List Event
interrupted_events =
    admits (request "a")
    ∷ selects "a" (some "p") 1
    ∷ interrupts "w"
    ∷ interrupt_ends 0 options 2
    ∷ admits (request "c")
    ∷ selects "c" (some "p") 3
    ∷ []

taken_over : Coordinator
taken_over = run interrupted_events (fresh store)

second_worker : Worker
second_worker = elim (lookup "w" taken_over.store) [ none ↦ worker | some w ↦ w ]

finish_ends_other_execution_example :
    let s' = step (finishes "a" failed options 4) taken_over in
    (busy_of (lookup "w" s'.store) ≡ false) × (s'.executing ≡ waiting "c" ∷ [])
unfolding taken_over second_worker run step admit admit_to take_out select_with start start_known
    begin_on begin_execution worker new_worker lookup insert remove same_id interrupt interrupt_on
    nth_first end_interrupt complete_at complete_execution
finish_ends_other_execution_example =
    finish_ends_other_execution failed options 4 "a" taken_over (waiting "a") (waiting "c" ∷ [])
      second_worker (execution_of (request "c") "p" 3) refl refl refl refl (differs "c" "a" refl)

-- A worker with the provider "p1" assigned, and a registry in which it is disabled.
abbrev assigned : Worker
assigned = record worker { assigned_provider_id = some "p1" }

abbrev provider : Manifest
provider = record {
  id = "p1";
  name = "one";
  version = "1.0.0";
  capabilities = "Reasoning" ∷ [];
  min_kernel_version = "1.0.0";
  max_kernel_version = "2.0.0";
}

abbrev providers : Registry
providers = register 1 provider empty_registry

provider_is_enabled : get_plugin "p1" providers ≡ some 1
unfolding get_plugin register insert lookup same_id
provider_is_enabled = refl
