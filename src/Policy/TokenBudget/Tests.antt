-- ===== src/Policy/TokenBudget/Tests.antt =====
-- A budget of one mission.
use local_first_se_platform.Base.{◌+◌, ◌≡◌, [], ◌∷◌}
use local_first_se_platform.Policy.TokenBudget.{mission, Budgets, entry_of}
use local_first_se_platform.Policy.TokenBudget.Accounting.{consume_all, sum, consume_all_adds_up}

abbrev no_budgets : Budgets
no_budgets = record { missions = []; tasks = []; workers = []; contexts = [] }

consume_all_adds_up_example :
    let before = entry_of mission "m" no_budgets in
    let after = entry_of mission "m" (consume_all mission "m" (5 ∷ 7 ∷ []) no_budgets) in
    (after.current_usage ≡ before.current_usage + sum (5 ∷ 7 ∷ []))
    × (after.hard_limit ≡ before.hard_limit)
    × (after.soft_limit ≡ before.soft_limit)
consume_all_adds_up_example = consume_all_adds_up mission "m" (5 ∷ 7 ∷ []) no_budgets
