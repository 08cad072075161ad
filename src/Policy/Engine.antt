-- ===== src/Policy/Engine.antt =====
-- src/v2/application/policy/execution_policy_engine.ts: the profiles, and what they decide. The
-- costs in dollars, which are floating-point numbers, are left out.
use local_first_se_platform.Base.{ℕ, String, Bool, true, false, leb, nat_eq, if◌then◌else◌}
use local_first_se_platform.Policy.TokenBudget.{Budgets, set_mission_budget}

pub data ExecutionProfileName : Type 0 where
  economy balanced performance custom : ExecutionProfileName

pub data WorkerPolicyMode : Type 0 where
  single pair_programming multi_agent department : WorkerPolicyMode

pub data ReviewDepth : Type 0 where
  light standard rigorous : ReviewDepth

pub record ExecutionProfile : Type 0 where
  pub name : ExecutionProfileName
  pub max_workers : ℕ
  pub max_context_size_tokens : ℕ
  pub max_token_budget : ℕ
  pub review_depth : ReviewDepth
  pub max_retries : ℕ
  pub allow_parallel_execution : Bool
  pub worker_policy : WorkerPolicyMode

unfoldable pub profiles : ExecutionProfileName → ExecutionProfile
profiles economy = record {
  name = economy;
  max_workers = 2;
  max_context_size_tokens = 2000;
  max_token_budget = 5000;
  review_depth = light;
  max_retries = 1;
  allow_parallel_execution = false;
  worker_policy = single;
}
profiles balanced = record {
  name = balanced;
  max_workers = 4;
  max_context_size_tokens = 4000;
  max_token_budget = 15000;
  review_depth = standard;
  max_retries = 2;
  allow_parallel_execution = true;
  worker_policy = pair_programming;
}
profiles performance = record {
  name = performance;
  max_workers = 8;
  max_context_size_tokens = 8000;
  max_token_budget = 50000;
  review_depth = rigorous;
  max_retries = 3;
  allow_parallel_execution = true;
  worker_policy = multi_agent;
}
profiles custom = record {
  name = custom;
  max_workers = 4;
  max_context_size_tokens = 4000;
  max_token_budget = 20000;
  review_depth = standard;
  max_retries = 2;
  allow_parallel_execution = true;
  worker_policy = department;
}

pub record PolicyEngine : Type 0 where
  pub current_profile : ExecutionProfile
  pub budgets : Budgets

abbrev pub initial_profile : ExecutionProfile
unfolding profiles
initial_profile = profiles balanced

unfoldable pub set_profile : ExecutionProfileName → PolicyEngine → PolicyEngine
unfolding profiles
set_profile name e = record e { current_profile = profiles name }

abbrev pub is_single : WorkerPolicyMode → Bool
is_single single = true
is_single _ = false

unfoldable pub resolve_worker_policy : ℕ → PolicyEngine → WorkerPolicyMode
resolve_worker_policy task_count e =
    let profile = e.current_profile in
    if leb task_count 1
    then single
    else if nat_eq task_count 2
    then if is_single profile.worker_policy then single else pair_programming
    else if leb task_count 5
    then if profile.allow_parallel_execution then multi_agent else pair_programming
    else department

-- The budget that `estimateMissionCost` gives a mission.
unfoldable pub estimate_mission_cost : String → PolicyEngine → PolicyEngine
estimate_mission_cost mission_id e = record e {
  budgets = set_mission_budget mission_id e.current_profile.max_token_budget e.budgets;
}
