-- ===== src/Reasoning/Leaks.antt =====
-- A request whose `beginExecution` throws is never taken off the active ones.
use local_first_se_platform.Base.{
  ℕ, String, ◌≡◌, refl, Bool, true, false, not, none, some, List, [], ◌∷◌, arith, ◌==◌, every,
  lookup, has,
}
use local_first_se_platform.Workers.Worker.{Worker, ActiveExecution, is_busy, begin_execution}
use local_first_se_platform.Reasoning.{
  Waiting, Coordinator, take_out, execution_of, begin_on, start_known, start, interrupt, Event,
  admits, selects, finishes, cancels, interrupts, interrupt_ends, nth_first, select_with, step, run,
}
use local_first_se_platform.Reasoning.Orphans.{named, named-take_out, spares, IsUnworked, Orphan}
use local_first_se_platform.Reasoning.Staying.{
  every-nth_first, select_with-Orphan, finish_with-Orphan, removed-Orphan, admit-Orphan,
  interrupt_on-Orphan, end_interrupt-Orphan,
}

module _ (id : String) where
  -- A new request of the same id, or its cancellation.
  abbrev pub touches : Event → Bool
  touches (admits q) = q.request_id == id
  touches (selects other plugin now) = false
  touches (finishes other outcome opts now) = false
  touches (cancels other) = other == id
  touches (interrupts v) = false
  touches (interrupt_ends n opts now) = false

  step-Orphan :
      (e : Event) (s : Coordinator) → touches e ≡ false → Orphan id s → Orphan id (step e s)
  unfolding step interrupt
  step-Orphan (admits q) s t o = admit-Orphan id q s (λ e. ground arith) o
  step-Orphan (selects other plugin now) s t o =
      let (found, rest) = take_out other s.selecting in
      select_with-Orphan id plugin now found rest s (named-take_out id other s.selecting) o
  step-Orphan (finishes other outcome opts now) s t o =
      let (found, rest) = take_out other s.executing in
      finish_with-Orphan id outcome opts now found rest s (named-take_out id other s.executing) o
  step-Orphan (cancels other) s t o = record {
    active = removed-Orphan id other s (λ e. ground arith) o;
    not_selecting = o.not_selecting;
    not_executing = o.not_executing;
    not_interrupting = o.not_interrupting;
    unworked = o.unworked;
  }
  step-Orphan (interrupts v) s t o = interrupt_on-Orphan id v s o
  step-Orphan (interrupt_ends n opts now) s t o =
      end_interrupt-Orphan id opts now (nth_first n s.interrupting) s
        (every-nth_first (spares id) n s.interrupting o.not_interrupting) o

  run-Orphan :
      (es : List Event) (s : Coordinator)
      → every (λ e. not (touches e)) es ≡ true
      → Orphan id s
      → Orphan id (run es s)
  unfolding run
  run-Orphan [] s t o = o
  run-Orphan (e ∷ es) s t o =
      run-Orphan es (step e s) (ground arith) (step-Orphan e s (ground arith) o)

begin_throws : (e : ActiveExecution) (w : Worker) → is_busy w ≡ true → begin_execution e w ≡ none
unfolding begin_execution
begin_throws e w h = ground arith

-- If the plugin of a request is found when its worker has become busy with another request in the
-- meantime, `beginExecution` throws and the request stays among the active ones for good: no later
-- events release it, other than a cancellation of this request or a new one of the same id. The id
-- is that of no other request in flight.
pub raced_request_is_never_released :
    (events : List Event) (s : Coordinator) (id plugin_id : String) (now : ℕ) (p : Waiting)
    (rest : List Waiting) (w : Worker)
    → has id s.active ≡ true
    → take_out id s.selecting ≡ (some p, rest)
    → p.known ≡ true
    → lookup p.request.worker_id s.store ≡ some w
    → is_busy w ≡ true
    → named id rest ≡ 0
    → named id s.executing ≡ 0
    → every (spares id) s.interrupting ≡ true
    → IsUnworked id s.store
    → every (λ e. not (touches id e)) events ≡ true
    → has id (run events (step (selects id (some plugin_id) now) s)).active ≡ true
unfolding step select_with start start_known begin_on
raced_request_is_never_released events s id plugin_id now p rest w active taken registered there
      busy_already apart not_executing not_interrupting unworked quiet =
    let s' = step (selects id (some plugin_id) now) s in
    let left : s' ≡ record s { selecting = rest } =
      rw
        (
          taken,
          registered,
          there,
          begin_throws (execution_of p.request plugin_id now) w busy_already,
          select_with,
          start,
          start_known,
          begin_on,
        )
        refl in
    (run-Orphan id events s' quiet (
      rw left (record {
        active = active;
        not_selecting = apart;
        not_executing = not_executing;
        not_interrupting = not_interrupting;
        unworked = unworked;
      }))).active
