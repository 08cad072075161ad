-- ===== src/Verification/Pipeline/Tests.antt =====
-- A pipeline with a step that passes and one that is skipped.
use local_first_se_platform.Base.{◌≤◌, ◌≡◌, refl, Bool, true, false, List, [], ◌∷◌, one_if, All}
use local_first_se_platform.Verification.Pipeline.{
  VerificationStepResult, StepRun, returned, verify, run_steps, run_step, tally_result,
  quality_score,
}
use local_first_se_platform.Verification.Pipeline.Score.{IsHarmless, verify_success_sound}

abbrev result : Bool → Bool → VerificationStepResult
result passed skipped = record {
  name = "step";
  passed = passed;
  skipped = skipped;
  errors = [];
  warnings = [];
}

abbrev two_steps : List StepRun
two_steps = returned (result true false) ∷ returned (result false true) ∷ []

-- A step that fails without an error does not block the others.
silent_failure :
    (verify 70 (
      returned (result true false)
      ∷ returned (result true false)
      ∷ returned (result true false)
      ∷ returned (result false false)
      ∷ [])).success
    ≡ true
unfolding verify run_steps run_step tally_result quality_score one_if
silent_failure = refl

verify_success_sound_example : (70 ≤ (verify 70 two_steps).quality) × All IsHarmless two_steps
unfolding verify run_steps run_step tally_result quality_score one_if
verify_success_sound_example = verify_success_sound 70 two_steps refl
