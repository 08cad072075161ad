-- ===== src/Reasoning/Limits.antt =====
-- How many requests are in flight.
use local_first_se_platform.Base.{
  ℕ, ◌+◌, ◌≤◌, String, ◌≡◌, refl, ap, Option, none, some, List, [], ◌∷◌, arith, length, Dict,
  lookup, insert, remove,
}
use local_first_se_platform.Workers.Worker.{
  Worker, ActiveExecution, TaskOutcome, CompletionOptions, begin_execution,
}
use local_first_se_platform.Reasoning.{
  Request, Waiting, Interrupt, Coordinator, max_concurrent_requests, admit_to, admit, take_out,
  execution_of, begin_on, start_known, start, finish, interrupt_on, execution_on, interrupt,
  end_interrupt, Event, admits, selects, finishes, cancels, interrupts, interrupt_ends, nth_first,
  select_with, finish_with, step, run,
}

module _ {ℓ} {V : Type ℓ} where
  length-insert-le : (k : String) (v : V) (m : Dict V) → length (insert k v m) ≤ length m + 1
  unfolding insert
  length-insert-le k v [] = omega arith
  length-insert-le k v ((j, w) ∷ m) = ground (arith, length-insert-le k v m)

  length-remove-le : (k : String) (m : Dict V) → length (remove k m) ≤ length m
  unfolding remove
  length-remove-le k [] = omega arith
  length-remove-le k ((j, w) ∷ m) = ground (arith, length-remove-le k m)

admit_to-active :
    (q : Request) (w : Option Worker) (s : Coordinator)
    → length (admit_to q w s).0.active ≤ length s.active + 1
unfolding admit_to
admit_to-active q none s = omega (arith, length-insert-le q.request_id q s.active)
admit_to-active q (some w) s = ground (arith, length-insert-le q.request_id q s.active)

begin_on-active :
    (q : Request) (w : Option Worker) (s : Coordinator) → (begin_on q w s).active ≡ s.active
unfolding begin_on
begin_on-active q none s = refl
begin_on-active q (some w) s = refl

start_known-active :
    (q : Request) (plugin_id : String) (now : ℕ) (w : Option Worker) (s : Coordinator)
    → (start_known q plugin_id now w s).active ≡ s.active
unfolding start_known
start_known-active q plugin_id now none s = refl
start_known-active q plugin_id now (some w) s =
    begin_on-active q (begin_execution (execution_of q plugin_id now) w) s

start-active :
    (plugin : Option String) (now : ℕ) (p : Waiting) (s : Coordinator)
    → length (start plugin now p s).active ≤ length s.active
unfolding start
start-active none now p s = length-remove-le p.request.request_id s.active
start-active (some plugin_id) now p s =
    let same = start_known-active p.request plugin_id now (lookup p.request.worker_id s.store) s in
    ground (arith, ap length same)

select_with-active :
    (plugin : Option String) (now : ℕ) (found : Option Waiting) (rest : List Waiting)
    (s : Coordinator)
    → length (select_with plugin now found rest s).active ≤ length s.active
unfolding select_with
select_with-active plugin now none rest s = omega arith
select_with-active plugin now (some p) rest s =
    start-active plugin now p (record s { selecting = rest })

finish_with-active :
    (outcome : TaskOutcome) (opts : CompletionOptions) (now : ℕ) (found : Option Waiting)
    (rest : List Waiting) (s : Coordinator)
    → length (finish_with outcome opts now found rest s).active ≤ length s.active
unfolding finish_with finish
finish_with-active outcome opts now none rest s = omega arith
finish_with-active outcome opts now (some p) rest s = length-remove-le p.request.request_id s.active

interrupt_on-active :
    (id : String) (e : Option ActiveExecution) (s : Coordinator)
    → (interrupt_on id e s).active ≡ s.active
unfolding interrupt_on
interrupt_on-active id none s = refl
interrupt_on-active id (some e) s = refl

end_interrupt-active :
    (opts : CompletionOptions) (now : ℕ) (s : Coordinator) (is : List Interrupt)
    → length (end_interrupt opts now s is).active ≤ length s.active
unfolding end_interrupt
end_interrupt-active opts now s [] = omega arith
end_interrupt-active opts now s (i ∷ rest) = length-remove-le i.request_id s.active

step-active :
    (e : Event) (s : Coordinator)
    → length s.active ≤ max_concurrent_requests
    → length (step e s).active ≤ max_concurrent_requests
unfolding step admit interrupt
step-active (admits q) s h = ground (arith, admit_to-active q (lookup q.worker_id s.store) s)
step-active (selects id plugin now) s h =
    let (found, rest) = take_out id s.selecting in
    omega (arith, select_with-active plugin now found rest s)
step-active (finishes id outcome opts now) s h =
    let (found, rest) = take_out id s.executing in
    omega (arith, finish_with-active outcome opts now found rest s)
step-active (cancels id) s h = omega (arith, length-remove-le id s.active)
step-active (interrupts id) s h =
    omega (arith, ap length (interrupt_on-active id (execution_on (lookup id s.store)) s))
step-active (interrupt_ends n opts now) s h =
    omega (arith, end_interrupt-active opts now s (nth_first n s.interrupting))

-- From a state with at most five active requests on, at most five are active at any time, whatever
-- the events and their order.
pub active_requests_bounded :
    (events : List Event) (s : Coordinator)
    → length s.active ≤ max_concurrent_requests
    → length (run events s).active ≤ max_concurrent_requests
unfolding run
active_requests_bounded [] s h = h
active_requests_bounded (e ∷ es) s h = active_requests_bounded es (step e s) (step-active e s h)
