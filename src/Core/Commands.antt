-- ===== src/Core/Commands.antt =====
-- src/core/application/services/verification_runner.ts. What the process runtime answers to a
-- command is an input: the runtime is an interface, and the programs that it starts are not in the
-- repository.
use local_first_se_platform.Base.{
  ℕ, String, ◌≡◌, refl, sym, ◌∙◌, inl, inr, Bool, true, false, not, ◌||◌, Option, none, some, List,
  [], ◌∷◌, ◌++◌, arith, nat_eq, if◌then◌else◌, Bool-cases, every, any,
}
use mathlib.Core.List.{append-nil, append_assoc}
use local_first_se_platform.Base.Text.{is_blank, includes}

-- `runtime.execute(..)` gives no usable handle, or the process ends, with an exit code or without.
pub data CommandRun : Type 0 where
  no_handle : CommandRun
  ran : Option ℕ → CommandRun

abbrev pub is_zero_exit : Option ℕ → Bool
is_zero_exit none = false
is_zero_exit (some n) = nat_eq n 0

-- What the caller is told. A missing handle is taken for a success.
abbrev pub reports_success : CommandRun → Bool
reports_success no_handle = true
reports_success (ran exit) = is_zero_exit exit

pub record VerificationStepResult : Type 0 where
  pub command : String
  pub success : Bool

pub record VerificationRunnerResult : Type 0 where
  pub success : Bool
  pub steps : List VerificationStepResult
  pub build_passed : Bool
  pub tests_passed : Bool

abbrev pub add_step : String → Bool → VerificationRunnerResult → VerificationRunnerResult
add_step cmd ok r = record r { steps = r.steps ++ record { command = cmd; success = ok } ∷ [] }

-- One command that was started.
abbrev pub note_exit : String → Bool → VerificationRunnerResult → VerificationRunnerResult
note_exit cmd ok r = record r {
  success = ok;
  steps = r.steps ++ record { command = cmd; success = ok } ∷ [];
  build_passed = if includes cmd "build" then ok else r.build_passed;
  tests_passed = if includes cmd "test" then ok else r.tests_passed;
}

-- The loop over the commands, each with what the runtime does with it. It breaks at a failed
-- command.
unfoldable pub run_commands :
    List (String × CommandRun) → VerificationRunnerResult → VerificationRunnerResult
run_commands [] r = r
run_commands ((cmd, no_handle) ∷ rest) r =
    run_commands rest (if is_blank cmd then r else add_step cmd true r)
run_commands ((cmd, ran exit) ∷ rest) r =
    let go_on = run_commands rest (if is_blank cmd then r else note_exit cmd true r) in
    if is_blank cmd || is_zero_exit exit then go_on else note_exit cmd false r

abbrev pub mentions : String → List (String × CommandRun) → Bool
mentions word commands = any (λ c. includes c.0 word) commands

-- `run`
unfoldable pub run : List (String × CommandRun) → VerificationRunnerResult
unfolding run_commands
run commands =
    let r =
      run_commands commands
        (record { success = true; steps = []; build_passed = false; tests_passed = false }) in
    record r {
      build_passed = if mentions "build" commands then r.build_passed else true;
      tests_passed = if mentions "test" commands then r.tests_passed else true;
    }

-- A command that does not stop the loop.
abbrev pub passes : String × CommandRun → Bool
passes (cmd, run_of) = is_blank cmd || reports_success run_of

-- The commands that are tried: those that are not blank, up to the first one that fails.
unfoldable pub tried : List (String × CommandRun) → List VerificationStepResult
tried [] = []
tried ((cmd, run_of) ∷ rest) =
    let more = if passes (cmd, run_of) then tried rest else [] in
    if is_blank cmd then more else record { command = cmd; success = reports_success run_of } ∷ more

run_commands-exact :
    (commands : List (String × CommandRun)) (r : VerificationRunnerResult)
    → r.success ≡ true
    → ((run_commands commands r).success ≡ every passes commands)
      × ((run_commands commands r).steps ≡ r.steps ++ tried commands)
unfolding run_commands tried
run_commands-exact [] r h = (h, sym (append-nil r.steps))
run_commands-exact ((cmd, no_handle) ∷ rest) r h = elim (Bool-cases (is_blank cmd)) [
  | inl blank ↦ rw (blank, run_commands, tried) (run_commands-exact rest r h)
  | inr text ↦
      let (ok, steps) = run_commands-exact rest (add_step cmd true r) h in
      rw (text, run_commands, tried) (ok, steps ∙ append_assoc r.steps _ (tried rest))
]
run_commands-exact ((cmd, ran exit) ∷ rest) r h = elim (Bool-cases (is_blank cmd)) [
  | inl blank ↦ rw (blank, run_commands, tried) (run_commands-exact rest r h)
  | inr text ↦ elim (Bool-cases (is_zero_exit exit)) [
    | inl zero_exit ↦
        let (ok, steps) = run_commands-exact rest (note_exit cmd true r) refl in
        rw (text, zero_exit, run_commands, tried) (ok, steps ∙ append_assoc r.steps _ (tried rest))
    | inr failed ↦ rw (text, failed, run_commands, tried) (refl, refl)
  ]
]

-- A command with words in it that the runtime starts.
abbrev pub is_started : String × CommandRun → Bool
is_started (cmd, no_handle) = false
is_started (cmd, ran exit) = not (is_blank cmd)

run_commands-flags :
    (commands : List (String × CommandRun)) (r : VerificationRunnerResult)
    → every is_started commands ≡ true
    → every passes commands ≡ true
    → ((run_commands commands r).build_passed ≡ mentions "build" commands || r.build_passed)
      × ((run_commands commands r).tests_passed ≡ mentions "test" commands || r.tests_passed)
unfolding run_commands
run_commands-flags [] r started ok = (refl, refl)
run_commands-flags ((cmd, no_handle) ∷ rest) r started ok = cc
run_commands-flags ((cmd, ran exit) ∷ rest) r started ok =
    ground (arith, run_commands-flags rest (note_exit cmd true r))

-- A verification run succeeds just if every command that is not blank exits with 0 or has no
-- handle; its steps are the commands up to the first failed one. If the runtime starts each
-- command, a successful run reports that the build and the tests passed.
pub run_exact :
    (commands : List (String × CommandRun))
    → ((run commands).success ≡ every passes commands)
      × ((run commands).steps ≡ tried commands)
      × (every is_started commands ≡ true
          → (run commands).success ≡ true
          → ((run commands).build_passed ≡ true) × ((run commands).tests_passed ≡ true))
unfolding run
run_exact commands =
    let fresh : VerificationRunnerResult = record {
      success = true;
      steps = [];
      build_passed = false;
      tests_passed = false;
    } in
    let (ok, steps) = run_commands-exact commands fresh refl in
    (ok, steps, λ started success. ground (arith, run_commands-flags commands fresh started))
