-- ===== src/Reasoning/Staying.antt =====
-- An orphaned request stays one in every part of an event.
use local_first_se_platform.Base.{
  ℕ, zero, suc, ◌+◌, String, ◌≡◌, refl, ap, ◌∙◌, ◌≢◌, inl, inr, Bool, true, false, Option, none,
  some, List, [], ◌∷◌, ◌++◌, arith, leb, Bool-cases, Option-cases, length, every, one_if, lookup,
  remove, has, has-insert,
}
use local_first_se_platform.Workers.Worker.{
  Worker, ActiveExecution, TaskOutcome, interrupted, CompletionOptions, is_busy, begin_execution,
}
use local_first_se_platform.Reasoning.{
  Request, Waiting, Interrupt, Coordinator, put_second, accept, admit_to, admit, execution_of,
  execution_on, begin_on, start_known, start, finish, interrupt_on, end_interrupt, nth_first,
  select_with, finish_with,
}
use local_first_se_platform.Reasoning.Orphans.{
  has-remove, named, named-snoc, names, spares, Orphan, insert-IsUnworked, complete_at-IsUnworked,
  begun-execution,
}

every-put_second :
    (f : Interrupt → Bool) (i : Interrupt) (is : List Interrupt)
    → f i ≡ true
    → every f is ≡ true
    → every f (put_second i is) ≡ true
every-put_second f i [] h k = refl
every-put_second f i (j ∷ js) h k = ground arith

pub every-nth_first :
    (f : Interrupt → Bool) (n : ℕ) (is : List Interrupt)
    → every f is ≡ true
    → every f (nth_first n is) ≡ true
unfolding nth_first
every-nth_first f n [] h = refl
every-nth_first f zero (i ∷ is) h = h
every-nth_first f (suc n) (i ∷ is) h =
    every-put_second f i (nth_first n is) (ground arith) (every-nth_first f n is (ground arith))

module _ (id : String) where
  start_known-Orphan :
      (q : Request) (plugin_id : String) (now : ℕ) (s : Coordinator)
      → q.request_id ≢ id
      → Orphan id s
      → Orphan id (start_known q plugin_id now (lookup q.worker_id s.store) s)
  unfolding start_known begin_on one_if
  start_known-Orphan q plugin_id now s other o = elim (Option-cases (lookup q.worker_id s.store)) [
    | inl e ↦
        rw (e, start_known)
          (record {
            active = o.active;
            not_selecting = o.not_selecting;
            not_executing = ground (
              arith,
              o.not_executing,
              named-snoc id s.executing (record { request = q; known = false }),
            );
            not_interrupting = o.not_interrupting;
            unworked = o.unworked;
          })
    | inr (w, e) ↦ elim (Option-cases (begin_execution (execution_of q plugin_id now) w)) [
      | inl busy_already ↦ rw (e, busy_already, start_known, begin_on) o
      | inr (w', begun) ↦
          rw (e, begun, start_known, begin_on)
            (record {
              active = o.active;
              not_selecting = o.not_selecting;
              not_executing = ground (
                arith,
                o.not_executing,
                named-snoc id s.executing (record { request = q; known = true }),
              );
              not_interrupting = o.not_interrupting;
              unworked =
                  insert-IsUnworked id q.worker_id w' s.store
                    (λ a f.
                      let g = begun-execution (execution_of q plugin_id now) w w' begun in
                      let same : execution_of q plugin_id now ≡ a = cc in
                      λ k. other (ap (λ (x : ActiveExecution). x.request_id) same ∙ k))
                    o.unworked;
            })
    ]
  ]

  pub removed-Orphan :
      (k : String) (s : Coordinator) → k ≢ id → Orphan id s → has id (remove k s.active) ≡ true
  removed-Orphan k s other o = ground (arith, has-remove k id s.active, o.active)

  start-Orphan :
      (plugin : Option String) (now : ℕ) (p : Waiting) (s : Coordinator)
      → p.request.request_id ≢ id
      → Orphan id s
      → Orphan id (start plugin now p s)
  unfolding start one_if
  start-Orphan none now p s other o = record {
    active = removed-Orphan p.request.request_id s other o;
    not_selecting = o.not_selecting;
    not_executing = o.not_executing;
    not_interrupting = o.not_interrupting;
    unworked = o.unworked;
  }
  start-Orphan (some plugin_id) now p s other o = elim (Bool-cases p.known) [
    | inl registered ↦ rw (registered, start) (start_known-Orphan p.request plugin_id now s other o)
    | inr unknown ↦
        rw (unknown, start)
          (record {
            active = o.active;
            not_selecting = o.not_selecting;
            not_executing = ground (
              arith,
              o.not_executing,
              named-snoc id s.executing (record { request = p.request; known = false }),
            );
            not_interrupting = o.not_interrupting;
            unworked = o.unworked;
          })
  ]

  pub select_with-Orphan :
      (plugin : Option String) (now : ℕ) (found : Option Waiting) (rest : List Waiting)
      (s : Coordinator)
      → names id found + named id rest ≡ named id s.selecting
      → Orphan id s
      → Orphan id (select_with plugin now found rest s)
  unfolding select_with one_if
  select_with-Orphan plugin now none rest s split o = o
  select_with-Orphan plugin now (some p) rest s split o =
      start-Orphan plugin now p (record s { selecting = rest }) (not_named p split o.not_selecting)
        (record {
          active = o.active;
          not_selecting = omega (arith, o.not_selecting);
          not_executing = o.not_executing;
          not_interrupting = o.not_interrupting;
          unworked = o.unworked;
        })
    where
      not_named :
          (p : Waiting)
          → names id (some p) + named id rest ≡ named id s.selecting
          → named id s.selecting ≡ 0
          → p.request.request_id ≢ id
      not_named p split none_left e = ground arith

  pub finish_with-Orphan :
      (outcome : TaskOutcome) (opts : CompletionOptions) (now : ℕ) (found : Option Waiting)
      (rest : List Waiting) (s : Coordinator)
      → names id found + named id rest ≡ named id s.executing
      → Orphan id s
      → Orphan id (finish_with outcome opts now found rest s)
  unfolding finish_with finish one_if
  finish_with-Orphan outcome opts now none rest s split o = o
  finish_with-Orphan outcome opts now (some p) rest s split o =
      let other : p.request.request_id ≢ id = λ e. ground (arith, o.not_executing) in
      elim (Bool-cases p.known) [
        | inl registered ↦
            rw (registered, finish_with, finish)
              (record {
                active = removed-Orphan p.request.request_id s other o;
                not_selecting = o.not_selecting;
                not_executing = omega (arith, o.not_executing);
                not_interrupting = o.not_interrupting;
                unworked =
                    complete_at-IsUnworked id p.request.worker_id outcome opts now s.store
                      o.unworked;
              })
        | inr unknown ↦
            rw (unknown, finish_with, finish)
              (record {
                active = removed-Orphan p.request.request_id s other o;
                not_selecting = o.not_selecting;
                not_executing = omega (arith, o.not_executing);
                not_interrupting = o.not_interrupting;
                unworked = o.unworked;
              })
      ]

  accept-Orphan :
      (q : Request) (known : Bool) (s : Coordinator)
      → q.request_id ≢ id
      → Orphan id s
      → Orphan id (accept q known s)
  unfolding one_if
  accept-Orphan q known s other o = record {
    active = ground (arith, has-insert q.request_id id q s.active, o.active);
    not_selecting =
        ground (
          arith,
          o.not_selecting,
          named-snoc id s.selecting (record { request = q; known = known }),
        );
    not_executing = o.not_executing;
    not_interrupting = o.not_interrupting;
    unworked = o.unworked;
  }

  admit_to-Orphan :
      (q : Request) (w : Option Worker) (s : Coordinator)
      → q.request_id ≢ id
      → Orphan id s
      → Orphan id (admit_to q w s).0
  unfolding admit_to
  admit_to-Orphan q none s other o = accept-Orphan q false s other o
  admit_to-Orphan q (some w) s other o = elim (Bool-cases (is_busy w)) [
    | inl busy_already ↦ rw busy_already o
    | inr free ↦ rw free (accept-Orphan q true s other o)
  ]

  pub admit-Orphan :
      (q : Request) (s : Coordinator) → q.request_id ≢ id → Orphan id s → Orphan id (admit q s).0
  unfolding admit
  admit-Orphan q s other o = elim (Bool-cases (leb 5 (length s.active))) [
    | inl full ↦ rw full o
    | inr room ↦ rw room (admit_to-Orphan q (lookup q.worker_id s.store) s other o)
  ]

  spares-snoc :
      (is : List Interrupt) (i : Interrupt)
      → every (spares id) is ≡ true
      → i.request_id ≢ id
      → every (spares id) (is ++ i ∷ []) ≡ true
  spares-snoc [] i h other = ground arith
  spares-snoc (j ∷ js) i h other = ground (arith, spares-snoc js i)

  pub interrupt_on-Orphan :
      (v : String) (s : Coordinator)
      → Orphan id s
      → Orphan id (interrupt_on v (execution_on (lookup v s.store)) s)
  unfolding interrupt_on
  interrupt_on-Orphan v s o = elim (Option-cases (execution_on (lookup v s.store))) [
    | inl e ↦ rw (e, interrupt_on) o
    | inr (a, e) ↦
        rw (e, interrupt_on)
          (record {
            active = o.active;
            not_selecting = o.not_selecting;
            not_executing = o.not_executing;
            not_interrupting =
                spares-snoc s.interrupting (record { worker_id = v; request_id = a.request_id })
                  o.not_interrupting (o.unworked v a e);
            unworked = o.unworked;
          })
  ]

  pub end_interrupt-Orphan :
      (opts : CompletionOptions) (now : ℕ) (is : List Interrupt) (s : Coordinator)
      → every (spares id) is ≡ true
      → Orphan id s
      → Orphan id (end_interrupt opts now s is)
  unfolding end_interrupt
  end_interrupt-Orphan opts now [] s h o = o
  end_interrupt-Orphan opts now (i ∷ is) s h o = record {
    active = removed-Orphan i.request_id s (λ e. ground arith) o;
    not_selecting = o.not_selecting;
    not_executing = o.not_executing;
    not_interrupting = ground arith;
    unworked = complete_at-IsUnworked id i.worker_id interrupted opts now s.store o.unworked;
  }
