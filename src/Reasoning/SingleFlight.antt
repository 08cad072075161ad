-- ===== src/Reasoning/SingleFlight.antt =====
-- A worker executes at most one request at a time.
use local_first_se_platform.Base.{
  ℕ, ◌+◌, String, ◌≡◌, refl, ◌≢◌, inl, inr, Bool, true, false, ◌&&◌, Option, none, some, List, [],
  ◌∷◌, ◌++◌, arith, leb, if◌then◌else◌, Bool-cases, Option-cases, ◌==◌, eq_self, length, every,
  one_if, lookup, lookup-insert,
}
use local_first_se_platform.Workers.Worker.{
  Worker, ActiveExecution, TaskOutcome, CompletionOptions, is_busy, begin_execution,
  complete_execution,
}
use local_first_se_platform.Workers.Store.{WorkerStore}
use local_first_se_platform.Reasoning.{
  Request, Waiting, Coordinator, admit_to, admit, take_out, execution_of, complete_at, begin_on,
  start_known, start, finish, Event, admits, selects, finishes, cancels, interrupts, interrupt_ends,
  select_with, finish_with, step, run,
}

abbrev pub busy_of : Option Worker → Bool
busy_of none = false
busy_of (some w) = is_busy w

-- The requests of a registered worker that are being executed.
abbrev pub runs_on : String → Waiting → Bool
runs_on v p = p.known && p.request.worker_id == v

unfoldable pub running : String → List Waiting → ℕ
unfolding one_if
running v [] = 0
running v (p ∷ ps) = one_if (runs_on v p) + running v ps

abbrev pub IsSingle : Coordinator → Type 0
IsSingle s = (v : String) → running v s.executing ≡ one_if (busy_of (lookup v s.store))

abbrev pub of_found : String → Option Waiting → ℕ
of_found v none = 0
of_found v (some p) = one_if (runs_on v p)

running-snoc :
    (v : String) (ps : List Waiting) (p : Waiting)
    → running v (ps ++ p ∷ []) ≡ running v ps + one_if (runs_on v p)
unfolding running
running-snoc v [] p = omega arith
running-snoc v (q ∷ qs) p = omega (arith, running-snoc v qs p)

running-take_out :
    (v id : String) (ps : List Waiting)
    → of_found v (take_out id ps).0 + running v (take_out id ps).1 ≡ running v ps
unfolding running take_out
running-take_out v id [] = refl
running-take_out v id (p ∷ ps) = ground (arith, running-take_out v id ps)

completed-idle :
    (outcome : TaskOutcome) (opts : CompletionOptions) (now : ℕ) (w : Worker)
    → is_busy (complete_execution outcome opts now w) ≡ false
unfolding complete_execution
completed-idle outcome opts now w = elim (Option-cases w.active_execution) [
  | inl e ↦ rw (e, complete_execution) (rw e refl)
  | inr (a, e) ↦ rw (e, complete_execution) refl
]

busy-complete_at :
    (v id : String) (outcome : TaskOutcome) (opts : CompletionOptions) (now : ℕ)
    (store : WorkerStore)
    → busy_of (lookup v (complete_at outcome opts now id (lookup id store) store))
      ≡ (if id == v then false else busy_of (lookup v store))
unfolding complete_at
busy-complete_at v id outcome opts now store = elim (Option-cases (lookup id store)) [
  | inl e ↦ rw (e, complete_at) (ground (arith, e))
  | inr (w, e) ↦
      rw (e, complete_at)
        (ground (
          arith,
          lookup-insert id v (complete_execution outcome opts now w) store,
          completed-idle outcome opts now w,
        ))
]

begin-busy :
    (e : ActiveExecution) (w w' : Worker)
    → begin_execution e w ≡ some w'
    → (is_busy w ≡ false) × (is_busy w' ≡ true)
unfolding begin_execution
begin-busy e w w' h = ground arith

start_known-IsSingle :
    (q : Request) (plugin_id : String) (now : ℕ) (s : Coordinator)
    → IsSingle s
    → IsSingle (start_known q plugin_id now (lookup q.worker_id s.store) s)
unfolding start_known begin_on one_if
start_known-IsSingle q plugin_id now s h = elim (Option-cases (lookup q.worker_id s.store)) [
  | inl e ↦
      rw (e, start_known)
        (λ v.
          ground (arith, h v, running-snoc v s.executing (record { request = q; known = false })))
  | inr (w, e) ↦ elim (Option-cases (begin_execution (execution_of q plugin_id now) w)) [
    | inl busy_already ↦ rw (e, busy_already, start_known, begin_on) h
    | inr (w', begun) ↦
        let (was_idle, is_now) = begin-busy (execution_of q plugin_id now) w w' begun in
        rw (e, begun, start_known, begin_on)
          (λ v. ground (
            arith,
            h v,
            running-snoc v s.executing (record { request = q; known = true }),
            lookup-insert q.worker_id v w' s.store,
          ))
  ]
]

start-IsSingle :
    (plugin : Option String) (now : ℕ) (p : Waiting) (s : Coordinator)
    → IsSingle s
    → IsSingle (start plugin now p s)
unfolding start one_if
start-IsSingle none now p s h = h
start-IsSingle (some plugin_id) now p s h = elim (Bool-cases p.known) [
  | inl registered ↦ rw (registered, start) (start_known-IsSingle p.request plugin_id now s h)
  | inr unknown ↦
      rw (unknown, start)
        (λ v.
          ground (
            arith,
            h v,
            running-snoc v s.executing (record { request = p.request; known = false }),
          ))
]

select_with-IsSingle :
    (plugin : Option String) (now : ℕ) (found : Option Waiting) (rest : List Waiting)
    (s : Coordinator)
    → IsSingle s
    → IsSingle (select_with plugin now found rest s)
unfolding select_with
select_with-IsSingle plugin now none rest s h = h
select_with-IsSingle plugin now (some p) rest s h =
    start-IsSingle plugin now p (record s { selecting = rest }) h

finish_with-IsSingle :
    (outcome : TaskOutcome) (opts : CompletionOptions) (now : ℕ) (found : Option Waiting)
    (rest : List Waiting) (s : Coordinator)
    → ((v : String) → of_found v found + running v rest ≡ running v s.executing)
    → IsSingle s
    → IsSingle (finish_with outcome opts now found rest s)
unfolding finish_with finish one_if
finish_with-IsSingle outcome opts now none rest s split h = h
finish_with-IsSingle outcome opts now (some p) rest s split h = elim (Bool-cases p.known) [
  | inl registered ↦
      rw (registered, finish_with, finish)
        (λ v.
          ground
            (arith, h v, split v, busy-complete_at v p.request.worker_id outcome opts now s.store))
  | inr unknown ↦ rw (unknown, finish_with, finish) (λ v. ground (arith, h v, split v))
]

admit_to-IsSingle :
    (q : Request) (w : Option Worker) (s : Coordinator) → IsSingle s → IsSingle (admit_to q w s).0
unfolding admit_to
admit_to-IsSingle q none s h = h
admit_to-IsSingle q (some w) s h = elim (Bool-cases (is_busy w)) [
  | inl busy_already ↦ rw busy_already h
  | inr free ↦ rw free h
]

admit-IsSingle : (q : Request) (s : Coordinator) → IsSingle s → IsSingle (admit q s).0
unfolding admit
admit-IsSingle q s h = elim (Bool-cases (leb 5 (length s.active))) [
  | inl full ↦ rw full h
  | inr room ↦ rw room (admit_to-IsSingle q (lookup q.worker_id s.store) s h)
]

-- Events of `requestReasoning` and `cancelReasoning`.
abbrev pub is_request : Event → Bool
is_request (admits q) = true
is_request (selects id plugin now) = true
is_request (finishes id outcome opts now) = true
is_request (cancels id) = true
is_request (interrupts id) = false
is_request (interrupt_ends n opts now) = false

step-IsSingle :
    (e : Event) (s : Coordinator) → is_request e ≡ true → IsSingle s → IsSingle (step e s)
unfolding step
step-IsSingle (admits q) s r h = admit-IsSingle q s h
step-IsSingle (selects id plugin now) s r h =
    let (found, rest) = take_out id s.selecting in select_with-IsSingle plugin now found rest s h
step-IsSingle (finishes id outcome opts now) s r h =
    let (found, rest) = take_out id s.executing in
    finish_with-IsSingle outcome opts now found rest s (λ v. running-take_out v id s.executing) h
step-IsSingle (cancels id) s r h = h
step-IsSingle (interrupts id) s r h = cc
step-IsSingle (interrupt_ends n opts now) s r h = cc

-- If each registered worker executes exactly one request while it is busy and none while it is not,
-- this stays so as long as no worker is interrupted by `cancelForWorker`, whatever the order of
-- events.
pub requests_are_single_flight :
    (events : List Event) (s : Coordinator) (v : String)
    → every is_request events ≡ true
    → IsSingle s
    → running v (run events s).executing ≡ one_if (busy_of (lookup v (run events s).store))
unfolding run
requests_are_single_flight [] s v all h = h v
requests_are_single_flight (e ∷ es) s v all h =
    requests_are_single_flight es (step e s) v (ground arith) (step-IsSingle e s (ground arith) h)

-- The end of a request completes whatever its worker executes, also if that is another request: a
-- request whose worker was interrupted in the meantime ends the execution that the worker has begun
-- since, and leaves the worker free while that execution goes on.
pub finish_ends_other_execution :
    (outcome : TaskOutcome) (opts : CompletionOptions) (now : ℕ) (id : String) (s : Coordinator)
    (p : Waiting) (rest : List Waiting) (w : Worker) (a : ActiveExecution)
    → take_out id s.executing ≡ (some p, rest)
    → p.known ≡ true
    → lookup p.request.worker_id s.store ≡ some w
    → w.active_execution ≡ some a
    → a.request_id ≢ p.request.request_id
    → let s' = step (finishes id outcome opts now) s in
      (busy_of (lookup p.request.worker_id s'.store) ≡ false) × (s'.executing ≡ rest)
unfolding step finish_with finish
finish_ends_other_execution outcome opts now id s p rest w a taken registered there executes other =
    rw (taken, registered, finish_with, finish)
      (
        ground (
          arith,
          busy-complete_at p.request.worker_id p.request.worker_id outcome opts now s.store,
          eq_self p.request.worker_id,
        ),
        refl,
      )
