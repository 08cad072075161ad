-- ===== src/Missions/Attempts/Bounded.antt =====
-- How often the orchestrator tries a task, and what becomes of the worktrees.
use local_first_se_platform.Base.{
  ℕ, zero, suc, ◌+◌, ◌*◌, ◌≤◌, ◌<◌, ◌≡◌, refl, ap, ◌∙◌, inl, inr, Bool, true, false, ◌&&◌, [],
  arith, if◌then◌else◌, Bool-cases, one_if,
}
use local_first_se_platform.Missions.Attempts.{
  OrchestratorPolicy, Outcome, dispatch_failed, verification_failed, merge_failed, succeeded,
  AttemptState, fresh_attempts, begin_attempt, remove_worktree, back_off, finish_attempt, goes_on,
  attempt_loop, run_attempts,
}
use local_first_se_platform.Missions.Attempts.Tries.{
  passes, one_try, IsTried, one_try-attempt, one_try-IsTried,
}

stops :
    (p : OrchestratorPolicy) (s : AttemptState)
    → p.max_task_retries + 1 ≤ s.attempt
    → goes_on p s ≡ false
unfolding goes_on
stops p s h = ground arith

at_least_one :
    (p : OrchestratorPolicy) (s : AttemptState)
    → (s.attempt ≡ 0 → s.task_success ≡ false)
    → goes_on p s ≡ false
    → 1 ≤ s.attempt
unfolding goes_on
at_least_one p s none_yet done = ground arith

gives_up :
    (p : OrchestratorPolicy) (s : AttemptState)
    → s.task_success ≡ false
    → goes_on p s ≡ false
    → s.attempt ≤ p.max_task_retries + 1
    → s.attempt ≡ p.max_task_retries + 1
unfolding goes_on
gives_up p s failed done bounded = ground arith

loop-IsTried :
    (fuel : ℕ) (p : OrchestratorPolicy) (oracle : ℕ → Outcome) (s : AttemptState)
    → IsTried p oracle s
    → p.max_task_retries + 1 ≤ fuel + s.attempt
    → let r = attempt_loop fuel p oracle s in IsTried p oracle r × (goes_on p r ≡ false)
unfolding attempt_loop one_try
loop-IsTried zero p oracle s t enough = (t, stops p s (omega arith))
loop-IsTried (suc fuel) p oracle s t enough = elim (Bool-cases (goes_on p s)) [
  | inl more ↦ rw more (
      loop-IsTried fuel p oracle (one_try p (oracle (s.attempt + 1)) s)
        (one_try-IsTried p oracle s t more)
        (omega (arith, one_try-attempt p (oracle (s.attempt + 1)) s)))
  | inr done ↦ rw done (t, done)
]

fresh-IsTried : (p : OrchestratorPolicy) (oracle : ℕ → Outcome) → IsTried p oracle fresh_attempts
unfolding one_if
fresh-IsTried p oracle = record {
  bounded = omega arith;
  earlier = λ k low high. absurd (omega arith);
  last = λ low. absurd (omega arith);
  none_yet = λ z. refl;
  created = omega arith;
  kept = refl;
  merged = refl;
}

run_attempts-IsTried :
    (p : OrchestratorPolicy) (oracle : ℕ → Outcome)
    → let r = run_attempts p oracle in IsTried p oracle r × (goes_on p r ≡ false)
unfolding run_attempts
run_attempts-IsTried p oracle =
    loop-IsTried (p.max_task_retries + 1) p oracle fresh_attempts (fresh-IsTried p oracle)
      (omega arith)

-- A loop whose test has failed goes no further with more fuel.
stopped :
    (fuel : ℕ) (p : OrchestratorPolicy) (oracle : ℕ → Outcome) (s : AttemptState)
    → goes_on p s ≡ false
    → attempt_loop fuel p oracle s ≡ s
unfolding attempt_loop
stopped zero p oracle s done = refl
stopped (suc fuel) p oracle s done = rw done refl

loop_fuel :
    (fuel extra : ℕ) (p : OrchestratorPolicy) (oracle : ℕ → Outcome) (s : AttemptState)
    → goes_on p (attempt_loop fuel p oracle s) ≡ false
    → attempt_loop (fuel + extra) p oracle s ≡ attempt_loop fuel p oracle s
unfolding attempt_loop
loop_fuel zero extra p oracle s done =
    let none_more : 0 + extra ≡ extra = omega arith in
    ap (λ n. attempt_loop n p oracle s) none_more ∙ stopped extra p oracle s done
loop_fuel (suc fuel) extra p oracle s done =
    let one_more : suc fuel + extra ≡ suc (fuel + extra) = omega arith in
    ap (λ n. attempt_loop n p oracle s) one_more ∙ elim (Bool-cases (goes_on p s)) [
      | inl more ↦ rw (more, attempt_loop) (loop_fuel fuel extra p oracle _ (rw more at done))
      | inr over ↦ rw (over, attempt_loop) refl
    ]

-- A task is tried until its first success, and at most `maxTaskRetries + 1` times: the loop stops by
-- itself after them, so that allowing it any more rounds changes nothing. Every attempt before the
-- last one made has failed, the task is a success just if the last one has passed, and the
-- orchestrator only gives up after all `maxTaskRetries + 1` attempts.
pub run_attempts_first_success :
    (extra : ℕ) (p : OrchestratorPolicy) (oracle : ℕ → Outcome)
    → let r = run_attempts p oracle in
      (attempt_loop (p.max_task_retries + 1 + extra) p oracle fresh_attempts ≡ r)
      × (goes_on p r ≡ false)
      × (1 ≤ r.attempt)
      × (r.attempt ≤ p.max_task_retries + 1)
      × ((k : ℕ) → 1 ≤ k → k < r.attempt → passes p (oracle k) ≡ false)
      × (r.task_success ≡ passes p (oracle r.attempt))
      × (r.task_success ≡ false → r.attempt ≡ p.max_task_retries + 1)
unfolding run_attempts
run_attempts_first_success extra p oracle =
    let (t, done) = run_attempts-IsTried p oracle in
    let r = run_attempts p oracle in
    let tried = at_least_one p r t.none_yet done in
    (
      loop_fuel (p.max_task_retries + 1) extra p oracle fresh_attempts done,
      done,
      tried,
      t.bounded,
      t.earlier,
      t.last tried,
      λ failed. gives_up p r failed done t.bounded,
    )

-- Every worktree that is created for an attempt is removed again or merged, and one is merged just
-- if the task has succeeded in a workspace.
pub run_attempts_worktrees :
    (p : OrchestratorPolicy) (oracle : ℕ → Outcome)
    → let r = run_attempts p oracle in
      (r.worktrees_created ≡ r.attempt * one_if p.makes_worktrees)
      × (r.worktrees_created ≡ r.worktrees_removed + r.worktrees_merged)
      × (r.worktrees_merged ≡ one_if (r.task_success && p.makes_worktrees))
run_attempts_worktrees p oracle =
    let (t, done) = run_attempts-IsTried p oracle in (t.created, t.kept, t.merged)

-- A run without its waits.
abbrev pub undelayed : AttemptState → AttemptState
undelayed s = record s { delays = [] }

abbrev pub never_waits : OrchestratorPolicy → OrchestratorPolicy
never_waits p = record p { auto_retry_on_failure = false }

one_try-undelayed :
    (p : OrchestratorPolicy) (o : Outcome) (s : AttemptState)
    → undelayed (one_try p o s) ≡ one_try (never_waits p) o (undelayed s)
unfolding one_try finish_attempt begin_attempt remove_worktree back_off
one_try-undelayed p dispatch_failed s = ground arith
one_try-undelayed p verification_failed s = ground arith
one_try-undelayed p merge_failed s = ground arith
one_try-undelayed p succeeded s = ground arith

undelayed-if :
    (b : Bool) (x y z : AttemptState)
    → undelayed x ≡ z
    → undelayed (if b then x else y) ≡ (if b then z else undelayed y)
undelayed-if true x y z h = h
undelayed-if false x y z h = refl

loop-undelayed :
    (fuel : ℕ) (p : OrchestratorPolicy) (oracle : ℕ → Outcome) (s : AttemptState)
    → undelayed (attempt_loop fuel p oracle s)
      ≡ attempt_loop fuel (never_waits p) oracle (undelayed s)
unfolding attempt_loop goes_on one_try
loop-undelayed zero p oracle s = refl
loop-undelayed (suc fuel) p oracle s =
    let o = oracle (s.attempt + 1) in
    let rest = loop-undelayed fuel p oracle (one_try p o s) in
    let later = rest ∙ ap (attempt_loop fuel (never_waits p) oracle) (one_try-undelayed p o s) in
    undelayed-if (goes_on p s) _ _ _ later

-- `autoRetryOnFailure` only decides on the waits: with it switched off a task is retried as often
-- and ends in the same state, since the loop does not test it.
pub run_attempts_ignores_auto_retry :
    (p : OrchestratorPolicy) (oracle : ℕ → Outcome)
    → undelayed (run_attempts p oracle) ≡ run_attempts (never_waits p) oracle
unfolding run_attempts
run_attempts_ignores_auto_retry p oracle =
    loop-undelayed (p.max_task_retries + 1) p oracle fresh_attempts
