-- ===== src/Verification/Pipeline/Score.antt =====
-- What the score and the verdict of a verification mean.
use local_first_se_platform.Base.{
  ℕ, zero, suc, ◌+◌, ◌-◌, ◌*◌, ◌/◌, ◌≤◌, ◌<◌, String, ◌≡◌, refl, ap, ◌∙◌, ◌≢◌, ◌⊎◌, inl, inr, Bool,
  true, false, not, ◌&&◌, ◌||◌, List, [], ◌∷◌, ◌++◌, arith, leb, if◌then◌else◌, length, one_if, All,
}
use native.Mathlib.Nat.{div-lt_iff_lt-mul, div-eq_of_lt-le}
use local_first_se_platform.Verification.Pipeline.{
  StepRun, returned, threw, VerificationTally, no_steps, tally_result, run_step, run_steps,
  quality_score, is_empty, verify,
}

-- How many steps have been scored as passes, and how many skipped.
unfoldable passes_of : List StepRun → ℕ
passes_of [] = 0
passes_of (returned r ∷ rs) = one_if (not r.skipped && r.passed) + passes_of rs
passes_of (threw name message ∷ rs) = passes_of rs

unfoldable skips_of : List StepRun → ℕ
skips_of [] = 0
skips_of (returned r ∷ rs) = one_if r.skipped + skips_of rs
skips_of (threw name message ∷ rs) = skips_of rs

run_steps-passed :
    (rs : List StepRun) (t : VerificationTally)
    → (run_steps rs t).passed_steps ≡ t.passed_steps + passes_of rs
unfolding run_steps run_step tally_result passes_of
run_steps-passed [] t = omega arith
run_steps-passed (returned r ∷ rs) t = omega (arith, run_steps-passed rs (tally_result r t))
run_steps-passed (threw name message ∷ rs) t =
    omega (arith, run_steps-passed rs (run_step (threw name message) t))

run_steps-skipped :
    (rs : List StepRun) (t : VerificationTally)
    → (run_steps rs t).skipped_steps ≡ t.skipped_steps + skips_of rs
unfolding run_steps run_step tally_result skips_of
run_steps-skipped [] t = omega arith
run_steps-skipped (returned r ∷ rs) t = omega (arith, run_steps-skipped rs (tally_result r t))
run_steps-skipped (threw name message ∷ rs) t =
    omega (arith, run_steps-skipped rs (run_step (threw name message) t))

one_of_two : (skipped passed : Bool) → one_if (not skipped && passed) + one_if skipped ≤ 1
unfolding one_if
one_of_two skipped passed = ground arith

passes_and_skips : (rs : List StepRun) → passes_of rs + skips_of rs ≤ length rs
unfolding passes_of skips_of
passes_and_skips [] = omega arith
passes_and_skips (returned r ∷ rs) =
    omega (arith, passes_and_skips rs, one_of_two r.skipped r.passed)
passes_and_skips (threw name message ∷ rs) = omega (arith, passes_and_skips rs)

below_101 : (x k : ℕ) → 0 < k → x < 101 * k → x / k < 101
below_101 x k positive h = (div-lt_iff_lt-mul positive).1 h

quality_score-le : (passed scored : ℕ) → passed ≤ scored → quality_score passed scored ≤ 100
unfolding quality_score
quality_score-le passed zero h = omega arith
quality_score-le passed (suc n) h =
    omega (arith, below_101 (200 * passed + suc n) (2 * suc n) (omega arith) (omega arith))

quality_score-full : (n : ℕ) → quality_score n n ≡ 100
unfolding quality_score
quality_score-full zero = refl
quality_score-full (suc n) = div-eq_of_lt-le (2 * suc n) (omega arith) (omega arith)

-- A quality score is at most 100, whatever the steps have come to.
pub verify_score_bounded : (min : ℕ) (runs : List StepRun) → (verify min runs).quality ≤ 100
unfolding verify
verify_score_bounded min runs =
    quality_score-le (run_steps runs no_steps).passed_steps
      (length runs - (run_steps runs no_steps).skipped_steps)
      (omega (
        arith,
        run_steps-passed runs no_steps,
        run_steps-skipped runs no_steps,
        passes_and_skips runs,
      ))

-- A step that has returned, and has been skipped or passed or has reported no error.
abbrev pub IsHarmless : StepRun → Type 0
IsHarmless (returned r) = ((r.skipped || r.passed) ≡ true) ⊎ (r.errors ≡ [])
IsHarmless (threw name message) = ⊥

append_empty : (xs ys : List String) → xs ++ ys ≡ [] → (xs ≡ []) × (ys ≡ [])
append_empty [] ys h = (refl, h)
append_empty (x ∷ xs) ys h = cc

clean_before :
    (b : Bool) (xs ys : List String)
    → (if b then xs else xs ++ ys) ≡ []
    → (xs ≡ []) × ((b ≡ true) ⊎ (ys ≡ []))
clean_before true xs ys h = (h, inl refl)
clean_before false xs ys h = let (l, r) = append_empty xs ys h in (l, inr r)

not_empty : (xs : List String) (x : String) → xs ++ x ∷ [] ≢ []
not_empty [] x h = cc
not_empty (y ∷ ys) x h = cc

run_steps-errors :
    (rs : List StepRun) (t : VerificationTally)
    → (run_steps rs t).all_errors ≡ []
    → (t.all_errors ≡ []) × All IsHarmless rs
unfolding run_steps run_step tally_result
run_steps-errors [] t h = (h, tt)
run_steps-errors (returned r ∷ rs) t h =
    let (clean, later) = run_steps-errors rs (tally_result r t) h in
    let (before, harmless) = clean_before (r.skipped || r.passed) t.all_errors r.errors clean in
    (before, (harmless, later))
run_steps-errors (threw name message ∷ rs) t h =
    let (clean, later) = run_steps-errors rs (run_step (threw name message) t) h in
    absurd (not_empty t.all_errors message clean)

is_empty-nil : (xs : List String) → is_empty xs ≡ true → xs ≡ []
is_empty-nil [] h = refl
is_empty-nil (x ∷ xs) h = cc

both_true : (a b : Bool) → (a && b) ≡ true → (a ≡ true) × (b ≡ true)
both_true true b h = (refl, h)
both_true false b h = cc

leb-le : (m n : ℕ) → leb m n ≡ true → m ≤ n
leb-le m n h = ground arith

-- A verification that succeeds has reached the minimal score, and none of its steps has thrown, or
-- has failed with an error.
pub verify_success_sound :
    (min : ℕ) (runs : List StepRun)
    → (verify min runs).success ≡ true
    → (min ≤ (verify min runs).quality) × All IsHarmless runs
unfolding verify
verify_success_sound min runs h =
    let t = run_steps runs no_steps in
    let score = quality_score t.passed_steps (length runs - t.skipped_steps) in
    let (enough, clean) = both_true (leb min score) (is_empty t.all_errors) h in
    (leb-le min score enough, (run_steps-errors runs no_steps (is_empty-nil t.all_errors clean)).1)

-- Every step has returned, and was skipped or passed.
abbrev pub IsPass : StepRun → Type 0
IsPass (returned r) = (r.skipped || r.passed) ≡ true
IsPass (threw name message) = ⊥

one_scored :
    (skipped passed : Bool)
    → (skipped || passed) ≡ true
    → one_if (not skipped && passed) + one_if skipped ≡ 1
unfolding one_if
one_scored true true h = refl
one_scored true false h = refl
one_scored false true h = refl
one_scored false false h = cc

clean_tally :
    (rs : List StepRun) (t : VerificationTally)
    → All IsPass rs
    → (passes_of rs + skips_of rs ≡ length rs) × ((run_steps rs t).all_errors ≡ t.all_errors)
unfolding run_steps run_step tally_result passes_of skips_of
clean_tally [] t h = (refl, refl)
clean_tally (returned r ∷ rs) t (here, later) =
    let (counted, clean) = clean_tally rs (tally_result r t) later in
    (omega (arith, counted, one_scored r.skipped r.passed here), clean ∙ rw here refl)
clean_tally (threw name message ∷ rs) t (here, later) = absurd here

-- If every step has passed or was skipped, there is no error, the score is 100, and the
-- verification succeeds for every minimal score up to 100.
pub verify_complete :
    (min : ℕ) (runs : List StepRun)
    → All IsPass runs
    → min ≤ 100
    → ((verify min runs).quality ≡ 100)
      × ((verify min runs).errors ≡ [])
      × ((verify min runs).success ≡ true)
unfolding verify
verify_complete min runs h le =
    let t = run_steps runs no_steps in
    let (counted, clean) = clean_tally runs no_steps h in
    let scored : length runs - t.skipped_steps ≡ t.passed_steps =
      omega (arith, counted, run_steps-passed runs no_steps, run_steps-skipped runs no_steps) in
    let full : quality_score t.passed_steps (length runs - t.skipped_steps) ≡ 100 =
      ap (quality_score t.passed_steps) scored ∙ quality_score-full t.passed_steps in
    (full, clean, rw (full, clean) (ground arith))
