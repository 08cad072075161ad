-- ===== src/Verification/Pipeline.antt =====
-- `verify` of src/v2/application/verification/verification_pipeline.ts. The steps run commands of
-- the operating system, so what each of them comes to is an argument.
mod Tests
pub mod Score
use local_first_se_platform.Base.{
  ℕ, zero, suc, ◌+◌, ◌-◌, ◌*◌, ◌/◌, String, Bool, true, false, not, ◌&&◌, ◌||◌, List, [], ◌∷◌, ◌++◌,
  leb, if◌then◌else◌, length, one_if,
}

pub record VerificationStepResult : Type 0 where
  pub name : String
  pub passed : Bool
  pub skipped : Bool
  pub errors : List String
  pub warnings : List String

-- `step.execute` returns a result, or throws an error with a message.
pub data StepRun : Type 0 where
  returned : VerificationStepResult → StepRun
  threw : String → String → StepRun

pub record VerificationTally : Type 0 where
  pub step_results : List VerificationStepResult
  pub all_errors : List String
  pub all_warnings : List String
  pub passed_steps : ℕ
  pub skipped_steps : ℕ

abbrev pub no_steps : VerificationTally
no_steps = record {
  step_results = [];
  all_errors = [];
  all_warnings = [];
  passed_steps = 0;
  skipped_steps = 0;
}

abbrev pub thrown_result : String → String → VerificationStepResult
thrown_result name message = record {
  name = name;
  passed = false;
  skipped = false;
  errors = message ∷ [];
  warnings = [];
}

unfoldable pub tally_result : VerificationStepResult → VerificationTally → VerificationTally
unfolding one_if
tally_result r t = record {
  step_results = t.step_results ++ r ∷ [];
  all_errors = if r.skipped || r.passed then t.all_errors else t.all_errors ++ r.errors;
  all_warnings = t.all_warnings ++ r.warnings;
  passed_steps = t.passed_steps + one_if (not r.skipped && r.passed);
  skipped_steps = t.skipped_steps + one_if r.skipped;
}

-- One round of the loop, with its `catch`. The text of the error is its message.
unfoldable pub run_step : StepRun → VerificationTally → VerificationTally
unfolding tally_result
run_step (returned r) t = tally_result r t
run_step (threw name message) t = record t {
  step_results = t.step_results ++ thrown_result name message ∷ [];
  all_errors = t.all_errors ++ message ∷ [];
}

unfoldable pub run_steps : List StepRun → VerificationTally → VerificationTally
unfolding run_step
run_steps [] t = t
run_steps (r ∷ rs) t = run_steps rs (run_step r t)

-- `Math.round((passedSteps / scoredSteps) * 100)`, over the rationals; halves are rounded up.
unfoldable pub quality_score : ℕ → ℕ → ℕ
quality_score passed zero = 100
quality_score passed (suc scored) = (200 * passed + suc scored) / (2 * suc scored)

abbrev pub is_empty : List String → Bool
is_empty [] = true
is_empty (x ∷ xs) = false

pub record VerificationResult : Type 0 where
  pub success : Bool
  pub quality : ℕ
  pub step_results : List VerificationStepResult
  pub errors : List String
  pub warnings : List String

unfoldable pub verify : ℕ → List StepRun → VerificationResult
unfolding run_steps quality_score
verify min_quality_score runs =
    let t = run_steps runs no_steps in
    let score = quality_score t.passed_steps (length runs - t.skipped_steps) in
    record {
      success = leb min_quality_score score && is_empty t.all_errors;
      quality = score;
      step_results = t.step_results;
      errors = t.all_errors;
      warnings = t.all_warnings;
    }
