-- ===== src/Policy/TokenBudget.antt =====
-- src/v2/application/policy/token_budget_manager.ts. Token counts are whole numbers.
mod Tests
pub mod Accounting
use local_first_se_platform.Base.{
  ℕ, ◌+◌, ◌-◌, ◌*◌, ◌/◌, String, Bool, not, ◌&&◌, Option, none, ltb, leb, if◌then◌else◌, Dict,
  lookup, insert,
}
use local_first_se_platform.Base.{or_else}

pub data BudgetScope : Type 0 where
  mission task worker context : BudgetScope

pub record BudgetEntry : Type 0 where
  pub scope : BudgetScope
  pub scope_id : String
  pub hard_limit : ℕ
  pub soft_limit : ℕ
  pub current_usage : ℕ
  pub warning_threshold_percent : ℕ

pub record ConsumeResult : Type 0 where
  pub exceeded : Bool
  pub warning : Bool
  pub reduced : Bool
  pub remaining : ℕ
  pub reduction_amount : ℕ

-- The budgets of each scope by id: the program's one map has the keys `${scope}:${scopeId}`, and no
-- scope's name has a colon in it.
pub record Budgets : Type 0 where
  pub missions : Dict BudgetEntry
  pub tasks : Dict BudgetEntry
  pub workers : Dict BudgetEntry
  pub contexts : Dict BudgetEntry

abbrev pub of_scope : BudgetScope → Budgets → Dict BudgetEntry
of_scope mission bs = bs.missions
of_scope task bs = bs.tasks
of_scope worker bs = bs.workers
of_scope context bs = bs.contexts

abbrev pub set_scope : BudgetScope → Dict BudgetEntry → Budgets → Budgets
set_scope mission m bs = record bs { missions = m }
set_scope task m bs = record bs { tasks = m }
set_scope worker m bs = record bs { workers = m }
set_scope context m bs = record bs { contexts = m }

-- `Math.round(n * 0.8)` and `Math.round(n * 0.5)`: halves are rounded up.
abbrev pub round_four_fifths : ℕ → ℕ
round_four_fifths n = (8 * n + 5) / 10

abbrev pub round_half : ℕ → ℕ
round_half n = (n + 1) / 2

unfoldable pub set_budget : BudgetScope → String → ℕ → Option ℕ → Option ℕ → Budgets → Budgets
set_budget scope id hard_limit soft_limit percent bs =
    set_scope scope
      (insert id
        (record {
          scope = scope;
          scope_id = id;
          hard_limit = hard_limit;
          soft_limit = or_else soft_limit (round_four_fifths hard_limit);
          current_usage = 0;
          warning_threshold_percent = or_else percent 75;
        })
        (of_scope scope bs))
      bs

unfoldable pub set_mission_budget : String → ℕ → Budgets → Budgets
unfolding set_budget
set_mission_budget id hard_limit bs = set_budget mission id hard_limit none none bs

abbrev pub default_entry : BudgetScope → String → BudgetEntry
default_entry scope id = record {
  scope = scope;
  scope_id = id;
  hard_limit = 10000;
  soft_limit = 8000;
  current_usage = 0;
  warning_threshold_percent = 75;
}

abbrev pub entry_of : BudgetScope → String → Budgets → BudgetEntry
entry_of scope id bs = or_else (lookup id (of_scope scope bs)) (default_entry scope id)

abbrev pub used : ℕ → BudgetEntry → BudgetEntry
used tokens b = record b { current_usage = b.current_usage + tokens }

-- The result for an entry whose usage is already raised. `usage >= hardLimit * (percent / 100)` is
-- read over the rationals.
unfoldable pub consume_result : BudgetEntry → ConsumeResult
consume_result b =
    let exceeded = ltb b.hard_limit b.current_usage in
    let reduced = ltb b.soft_limit b.current_usage && not exceeded in
    record {
      exceeded = exceeded;
      warning =
          leb (b.hard_limit * b.warning_threshold_percent) (b.current_usage * 100) && not exceeded;
      reduced = reduced;
      remaining = b.hard_limit - b.current_usage;
      reduction_amount = if reduced then round_half (b.current_usage - b.soft_limit) else 0;
    }

unfoldable pub consume_tokens : BudgetScope → String → ℕ → Budgets → Budgets × ConsumeResult
consume_tokens scope id tokens bs =
    let b = used tokens (entry_of scope id bs) in
    (set_scope scope (insert id b (of_scope scope bs)) bs, consume_result b)

-- The status of a budget: its entry, and what is left of it.
unfoldable pub get_budget_status : BudgetScope → String → Budgets → BudgetEntry × ℕ
get_budget_status scope id bs = let b = entry_of scope id bs in (b, b.hard_limit - b.current_usage)
