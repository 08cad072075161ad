-- ===== src/Reasoning.antt =====
-- src/v2/application/reasoning: who answers a request, and the requests in flight.
-- `requestReasoning` waits twice, for the selection of a plugin and for its answer, and
-- `cancelForWorker` once; what runs between two waits is one event, and events of different
-- requests come in any order. Events for listeners and the terminal log are left out.
mod Tests
pub mod Limits
pub mod Selection
pub mod SingleFlight
pub mod Orphans
mod Staying
pub mod Leaks
use local_first_se_platform.Base.{
  zero, suc, ℕ, String, Bool, true, false, Option, none, some, List, [], ◌∷◌, ◌++◌, leb,
  if◌then◌else◌, ◌==◌, length, Dict, lookup, insert, remove,
}
use Prim.Native.String.{◌++◌ as join}
use local_first_se_platform.Base.Text.{is_empty_text}
use local_first_se_platform.Workers.Worker.{
  Worker, ActiveExecution, TaskOutcome, interrupted, CompletionOptions, is_busy, begin_execution,
  complete_execution,
}
use local_first_se_platform.Workers.Store.{WorkerStore}
use local_first_se_platform.Plugins.Registry.{Registry, get_plugin, get_plugins_by_capability}

-- `worker?.assignedProviderId`, if it is not empty.
abbrev pub assigned_plugin_id : Option Worker → Option String
assigned_plugin_id none = none
assigned_plugin_id (some w) = elim w.assigned_provider_id [
  | none ↦ none
  | some id ↦ if is_empty_text id then none else some id
]

abbrev pub head : List ℕ → Option ℕ
head [] = none
head (p ∷ ps) = some p

abbrev pub if_available : (ℕ → Bool) → Option ℕ → Option ℕ
if_available available none = none
if_available available (some p) = if available p then some p else none

abbrev pub first_of : Option ℕ → Option ℕ → Option ℕ
first_of none o = o
first_of (some p) o = some p

-- `selectPlugin`. `available` is what the plugin's CLI detection says of it.
unfoldable pub select_plugin : (ℕ → Bool) → String → String → Registry → Option Worker → Option ℕ
unfolding get_plugin get_plugins_by_capability
select_plugin available default_id capability r worker = elim (assigned_plugin_id worker) [
  | some id ↦ if_available available (get_plugin id r)
  | none ↦ first_of (get_plugin default_id r) (head (get_plugins_by_capability capability r))
]

pub record Request : Type 0 where
  pub request_id : String
  pub worker_id : String
  pub task_id : Option String
  pub goal : String

-- A request that waits for its plugin, and one that waits for the plugin's answer. `known` tells
-- whether its worker is registered.
pub record Waiting : Type 0 where
  pub request : Request
  pub known : Bool

pub record Interrupt : Type 0 where
  pub worker_id : String
  pub request_id : String

pub record Coordinator : Type 0 where
  pub active : Dict Request
  pub selecting : List Waiting
  pub executing : List Waiting
  pub interrupting : List Interrupt
  pub store : WorkerStore

abbrev pub max_concurrent_requests : ℕ
max_concurrent_requests = 5

abbrev pub accept : Request → Bool → Coordinator → Coordinator
accept q known s = record s {
  active = insert q.request_id q s.active;
  selecting = s.selecting ++ record { request = q; known = known } ∷ [];
}

unfoldable pub admit_to : Request → Option Worker → Coordinator → Coordinator × Bool
admit_to q none s = (accept q false s, true)
admit_to q (some w) s = if is_busy w then (s, false) else (accept q true s, true)

-- `requestReasoning`, up to its first wait.
unfoldable pub admit : Request → Coordinator → Coordinator × Bool
unfolding admit_to
admit q s =
    if leb max_concurrent_requests (length s.active)
    then (s, false)
    else admit_to q (lookup q.worker_id s.store) s

-- The first waiting request with an id, and the others.
unfoldable pub take_out : String → List Waiting → Option Waiting × List Waiting
take_out id [] = (none, [])
take_out id (p ∷ ps) =
    let (found, rest) = take_out id ps in
    if p.request.request_id == id then (some p, ps) else (found, p ∷ rest)

abbrev pub execution_of : Request → String → ℕ → ActiveExecution
execution_of q plugin_id now = record {
  execution_id = join "exec-" q.request_id;
  request_id = q.request_id;
  task_id = elim q.task_id as (λ o. String) [ none ↦ q.request_id | some t ↦ t ];
  goal = q.goal;
  plugin_id = plugin_id;
  workspace_path = none;
  started_at = now;
}

abbrev pub execute : Request → Bool → Coordinator → Coordinator
execute q known s = record s {
  executing = s.executing ++ record { request = q; known = known } ∷ [];
}

-- `worker.beginExecution` stands outside of the `try`: where it throws, nothing more is done.
unfoldable pub begin_on : Request → Option Worker → Coordinator → Coordinator
begin_on q none s = s
begin_on q (some w) s = execute q true (record s { store = insert q.worker_id w s.store })

unfoldable pub start_known : Request → String → ℕ → Option Worker → Coordinator → Coordinator
unfolding begin_on begin_execution
start_known q plugin_id now none s = execute q false s
start_known q plugin_id now (some w) s =
    begin_on q (begin_execution (execution_of q plugin_id now) w) s

unfoldable pub start : Option String → ℕ → Waiting → Coordinator → Coordinator
unfolding start_known
start none now p s = record s { active = remove p.request.request_id s.active }
start (some plugin_id) now p s =
    if p.known
    then start_known p.request plugin_id now (lookup p.request.worker_id s.store) s
    else execute p.request false s

-- `worker?.completeExecution(outcome, ..)`
unfoldable pub complete_at :
    TaskOutcome → CompletionOptions → ℕ → String → Option Worker → WorkerStore → WorkerStore
unfolding complete_execution
complete_at outcome opts now id none store = store
complete_at outcome opts now id (some w) store =
    insert id (complete_execution outcome opts now w) store

-- What follows the plugin's answer, or its exception.
unfoldable pub finish : TaskOutcome → CompletionOptions → ℕ → Waiting → Coordinator → Coordinator
unfolding complete_at
finish outcome opts now p s = record s {
  active = remove p.request.request_id s.active;
  store =
      if p.known
      then complete_at outcome opts now p.request.worker_id (lookup p.request.worker_id s.store)
          s.store
      else s.store;
}

-- `cancelForWorker` up to its wait for the plugin, and after it.
unfoldable pub interrupt_on : String → Option ActiveExecution → Coordinator → Coordinator
interrupt_on id none s = s
interrupt_on id (some e) s = record s {
  interrupting = s.interrupting ++ record { worker_id = id; request_id = e.request_id } ∷ [];
}

abbrev pub execution_on : Option Worker → Option ActiveExecution
execution_on none = none
execution_on (some w) = w.active_execution

unfoldable pub interrupt : String → Coordinator → Coordinator
unfolding interrupt_on
interrupt id s = interrupt_on id (execution_on (lookup id s.store)) s

unfoldable pub end_interrupt : CompletionOptions → ℕ → Coordinator → List Interrupt → Coordinator
unfolding complete_at
end_interrupt opts now s [] = s
end_interrupt opts now s (i ∷ rest) = record s {
  active = remove i.request_id s.active;
  interrupting = rest;
  store = complete_at interrupted opts now i.worker_id (lookup i.worker_id s.store) s.store;
}

-- The interruptions, with the one at a position first; none beyond the end.
abbrev pub put_second : Interrupt → List Interrupt → List Interrupt
put_second i [] = []
put_second i (j ∷ js) = j ∷ i ∷ js

unfoldable pub nth_first : ℕ → List Interrupt → List Interrupt
nth_first n [] = []
nth_first zero (i ∷ is) = i ∷ is
nth_first (suc n) (i ∷ is) = put_second i (nth_first n is)

pub data Event : Type 0 where
  admits : Request → Event
  -- The plugin of a request is found, or there is none.
  selects : String → Option String → ℕ → Event
  finishes : String → TaskOutcome → CompletionOptions → ℕ → Event
  -- `cancelReasoning`
  cancels : String → Event
  interrupts : String → Event
  -- The interruptions end in any order.
  interrupt_ends : ℕ → CompletionOptions → ℕ → Event

unfoldable pub select_with :
    Option String → ℕ → Option Waiting → List Waiting → Coordinator → Coordinator
unfolding start
select_with plugin now none rest s = s
select_with plugin now (some p) rest s = start plugin now p (record s { selecting = rest })

unfoldable pub finish_with :
    TaskOutcome → CompletionOptions → ℕ → Option Waiting → List Waiting → Coordinator → Coordinator
unfolding finish
finish_with outcome opts now none rest s = s
finish_with outcome opts now (some p) rest s =
    finish outcome opts now p (record s { executing = rest })

unfoldable pub step : Event → Coordinator → Coordinator
unfolding admit take_out select_with finish_with interrupt nth_first end_interrupt
step (admits q) s = (admit q s).0
step (selects id plugin now) s =
    let (found, rest) = take_out id s.selecting in select_with plugin now found rest s
step (finishes id outcome opts now) s =
    let (found, rest) = take_out id s.executing in finish_with outcome opts now found rest s
step (cancels id) s = record s { active = remove id s.active }
step (interrupts id) s = interrupt id s
step (interrupt_ends n opts now) s = end_interrupt opts now s (nth_first n s.interrupting)

unfoldable pub run : List Event → Coordinator → Coordinator
unfolding step
run [] s = s
run (e ∷ es) s = run es (step e s)

abbrev pub fresh : WorkerStore → Coordinator
fresh store = record {
  active = [];
  selecting = [];
  executing = [];
  interrupting = [];
  store = store;
}
