-- ===== src/Workers/Worker/SingleFlight.antt =====
-- A worker has at most one execution at a time, over any sequence of calls.
use local_first_se_platform.Base.{
  ℕ, ◌+◌, ◌≤◌, ◌≡◌, refl, Option, none, some, List, [], ◌∷◌, arith, length, one_if,
}
use local_first_se_platform.Base.{length-take-le}
use local_first_se_platform.Workers.Worker.{
  Worker, ActiveExecution, TaskOutcome, CompletionOptions, is_busy, max_history_per_worker,
  begin_execution, complete_execution, history_entry,
}

pub data Call : Type 0 where
  begins : ActiveExecution → Call
  completes : TaskOutcome → CompletionOptions → ℕ → Call

-- What a sequence of calls leaves: a call that throws changes nothing. `begun` counts the
-- executions that were begun, `ended` those that were completed.
pub record Run : Type 0 where
  pub worker : Worker
  pub begun : ℕ
  pub ended : ℕ

pub step : Call → Run → Run
step (begins e) r = elim (begin_execution e r.worker) [
  | none ↦ r
  | some w ↦ record r { worker = w; begun = r.begun + 1 }
]
step (completes outcome opts now) r = record {
  worker = complete_execution outcome opts now r.worker;
  begun = r.begun;
  ended = r.ended + one_if (is_busy r.worker);
}

pub run : List Call → Run → Run
run [] r = r
run (c ∷ cs) r = run cs (step c r)

pub record IsBalanced (r : Run) : Type 0 where
  pub balanced : r.begun ≡ r.ended + one_if (is_busy r.worker)
  pub bounded : length r.worker.history ≤ max_history_per_worker

step-IsBalanced : (c : Call) (r : Run) → IsBalanced r → IsBalanced (step c r)
unfolding step begin_execution complete_execution one_if
step-IsBalanced (begins e) r h = ground arith
step-IsBalanced (completes outcome opts now) r h = record {
  balanced = ground arith;
  bounded = completed (r.worker.active_execution) refl;
}
  where
    completed :
        (a : Option ActiveExecution)
        → r.worker.active_execution ≡ a
        → length (complete_execution outcome opts now r.worker).history ≤ max_history_per_worker
    completed none e = rw (e, complete_execution) h.bounded
    completed (some a) e =
        rw (e, complete_execution)
          (length-take-le max_history_per_worker
            (history_entry outcome opts now a ∷ r.worker.history))

-- Whatever the order of `beginExecution` and `completeExecution` calls, the executions begun are
-- those ended and at most one in flight, and the history never holds more than 25 entries.
pub run-IsBalanced : (cs : List Call) (r : Run) → IsBalanced r → IsBalanced (run cs r)
unfolding run
run-IsBalanced [] r h = h
run-IsBalanced (c ∷ cs) r h = run-IsBalanced cs (step c r) (step-IsBalanced c r h)
