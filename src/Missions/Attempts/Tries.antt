-- ===== src/Missions/Attempts/Tries.antt =====
-- What one attempt changes.
use local_first_se_platform.Base.{
  ℕ, ◌+◌, ◌*◌, ◌≤◌, ◌<◌, ◌≡◌, refl, sym, ap, ◌∙◌, inl, inr, Bool, true, false, not, ◌&&◌, arith,
  nat_eq, Bool-cases, one_if,
}
use local_first_se_platform.Missions.Attempts.{
  OrchestratorPolicy, Outcome, dispatch_failed, verification_failed, merge_failed, succeeded,
  AttemptState, begin_attempt, remove_worktree, back_off, finish_attempt, goes_on,
}

-- The attempt makes the task a success.
abbrev pub passes : OrchestratorPolicy → Outcome → Bool
passes p dispatch_failed = false
passes p verification_failed = false
passes p merge_failed = not p.makes_worktrees
passes p succeeded = true

unfoldable pub one_try : OrchestratorPolicy → Outcome → AttemptState → AttemptState
one_try p o s = finish_attempt p o (begin_attempt p s)

-- `s` after the attempts so far, of which only the last can be a success.
pub record IsTried (p : OrchestratorPolicy) (oracle : ℕ → Outcome) (s : AttemptState) : Type 0 where
  pub bounded : s.attempt ≤ p.max_task_retries + 1
  pub earlier : (k : ℕ) → 1 ≤ k → k < s.attempt → passes p (oracle k) ≡ false
  pub last : 1 ≤ s.attempt → s.task_success ≡ passes p (oracle s.attempt)
  pub none_yet : s.attempt ≡ 0 → s.task_success ≡ false
  pub created : s.worktrees_created ≡ s.attempt * one_if p.makes_worktrees
  pub kept : s.worktrees_created ≡ s.worktrees_removed + s.worktrees_merged
  pub merged : s.worktrees_merged ≡ one_if (s.task_success && p.makes_worktrees)

pub one_try-attempt :
    (p : OrchestratorPolicy) (o : Outcome) (s : AttemptState)
    → (one_try p o s).attempt ≡ s.attempt + 1
unfolding one_try finish_attempt begin_attempt remove_worktree back_off
one_try-attempt p dispatch_failed s = ground arith
one_try-attempt p verification_failed s = ground arith
one_try-attempt p merge_failed s = ground arith
one_try-attempt p succeeded s = ground arith

one_try-success :
    (p : OrchestratorPolicy) (o : Outcome) (s : AttemptState)
    → s.task_success ≡ false
    → (one_try p o s).task_success ≡ passes p o
unfolding one_try finish_attempt begin_attempt remove_worktree back_off
one_try-success p dispatch_failed s h = ground arith
one_try-success p verification_failed s h = ground arith
one_try-success p merge_failed s h = ground arith
one_try-success p succeeded s h = ground arith

one_try-created :
    (p : OrchestratorPolicy) (o : Outcome) (s : AttemptState)
    → (one_try p o s).worktrees_created ≡ s.worktrees_created + one_if p.makes_worktrees
unfolding one_try finish_attempt begin_attempt remove_worktree back_off
one_try-created p dispatch_failed s = ground arith
one_try-created p verification_failed s = ground arith
one_try-created p merge_failed s = ground arith
one_try-created p succeeded s = ground arith

one_try-merged :
    (p : OrchestratorPolicy) (o : Outcome) (s : AttemptState)
    → (one_try p o s).worktrees_merged
      ≡ s.worktrees_merged + one_if (passes p o && p.makes_worktrees)
unfolding one_try finish_attempt begin_attempt remove_worktree back_off one_if
one_try-merged p dispatch_failed s = ground arith
one_try-merged p verification_failed s = ground arith
one_try-merged p merge_failed s = ground arith
one_try-merged p succeeded s = ground arith

one_try-removed :
    (p : OrchestratorPolicy) (o : Outcome) (s : AttemptState)
    → (one_try p o s).worktrees_removed
      ≡ s.worktrees_removed + one_if (not (passes p o) && p.makes_worktrees)
unfolding one_try finish_attempt begin_attempt remove_worktree back_off one_if
one_try-removed p dispatch_failed s = ground arith
one_try-removed p verification_failed s = ground arith
one_try-removed p merge_failed s = ground arith
one_try-removed p succeeded s = ground arith

engine_split : (a b : Bool) → one_if b ≡ one_if (not a && b) + one_if (a && b)
unfolding one_if
engine_split true b = ground arith
engine_split false b = ground arith

one_if-false : one_if false ≡ 0
unfolding one_if
one_if-false = refl

suc_times : (a b : ℕ) → (a + 1) * b ≡ a * b + b
suc_times a b = omega arith

the_same : (k n : ℕ) → nat_eq k n ≡ true → k ≡ n
the_same k n e = ground arith

positive : (k n : ℕ) → 1 ≤ k → nat_eq k n ≡ true → 1 ≤ n
positive k n low e = ground arith

pub one_try-IsTried :
    (p : OrchestratorPolicy) (oracle : ℕ → Outcome) (s : AttemptState)
    → IsTried p oracle s
    → goes_on p s ≡ true
    → IsTried p oracle (one_try p (oracle (s.attempt + 1)) s)
unfolding goes_on
one_try-IsTried p oracle s t more =
    let o = oracle (s.attempt + 1) in
    let unfinished : s.task_success ≡ false = ground arith in
    let room : s.attempt ≤ p.max_task_retries = ground arith in
    let counted = one_try-attempt p o s in
    let success = one_try-success p o s unfinished in
    record {
      bounded = omega arith;
      earlier = λ k low high. elim (Bool-cases (nat_eq k s.attempt)) [
        | inl e ↦
            ap (λ n. passes p (oracle n)) (the_same k s.attempt e)
            ∙ sym (t.last (positive k s.attempt low e))
            ∙ unfinished
        | inr e ↦ t.earlier k low (ground arith)
      ];
      last = λ low. success ∙ ap (λ n. passes p (oracle n)) (sym counted);
      none_yet = λ z. absurd (omega arith);
      created = omega (
        arith,
        one_try-created p o s,
        ap (λ n. n * one_if p.makes_worktrees) counted,
        suc_times s.attempt (one_if p.makes_worktrees),
      );
      kept = omega (
        arith,
        one_try-created p o s,
        one_try-removed p o s,
        one_try-merged p o s,
        engine_split (passes p o) p.makes_worktrees,
      );
      merged = rw success (
          omega (
            arith,
            one_try-merged p o s,
            ap (λ b. one_if (b && p.makes_worktrees)) unfinished,
            one_if-false,
          ));
    }
