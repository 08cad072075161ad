-- ===== src/Policy/TokenBudget/Accounting.antt =====
-- What the budgets add up to.
use local_first_se_platform.Base.{
  ℕ, ◌+◌, ◌-◌, ◌*◌, ◌≤◌, ◌<◌, String, ◌≡◌, refl, ap, ◌∙◌, ◌≢◌, ◌↔◌, ◌⊎◌, inl, inr, true, false,
  List, [], ◌∷◌, arith, eq_self, Dict, insert, lookup-insert,
}
use local_first_se_platform.Policy.TokenBudget.{
  BudgetScope, mission, task, worker, context, BudgetEntry, Budgets, of_scope, set_scope, entry_of,
  used, consume_result, consume_tokens,
}

of_scope-set_scope :
    (scope : BudgetScope) (m : Dict BudgetEntry) (bs : Budgets)
    → of_scope scope (set_scope scope m bs) ≡ m
of_scope-set_scope mission m bs = refl
of_scope-set_scope task m bs = refl
of_scope-set_scope worker m bs = refl
of_scope-set_scope context m bs = refl

of_scope-set_scope_ne :
    (scope other : BudgetScope) (m : Dict BudgetEntry) (bs : Budgets)
    → scope ≢ other
    → of_scope other (set_scope scope m bs) ≡ of_scope other bs
of_scope-set_scope_ne scope other m bs h = ground arith

entry_of-consume_tokens :
    (scope : BudgetScope) (id : String) (tokens : ℕ) (bs : Budgets)
    → entry_of scope id (consume_tokens scope id tokens bs).0 ≡ used tokens (entry_of scope id bs)
unfolding consume_tokens
entry_of-consume_tokens scope id tokens bs = rw (of_scope-set_scope, lookup-insert, eq_self)

-- A series of charges to one budget.
unfoldable pub consume_all : BudgetScope → String → List ℕ → Budgets → Budgets
consume_all scope id [] bs = bs
consume_all scope id (n ∷ ns) bs = consume_all scope id ns (consume_tokens scope id n bs).0

unfoldable pub sum : List ℕ → ℕ
sum [] = 0
sum (n ∷ ns) = n + sum ns

-- Charging a budget any number of times adds up: its usage grows by the sum of the charges, and
-- its limits stay.
pub consume_all_adds_up :
    (scope : BudgetScope) (id : String) (ns : List ℕ) (bs : Budgets)
    → let before = entry_of scope id bs in
      let after = entry_of scope id (consume_all scope id ns bs) in
      (after.current_usage ≡ before.current_usage + sum ns)
      × (after.hard_limit ≡ before.hard_limit)
      × (after.soft_limit ≡ before.soft_limit)
unfolding consume_all sum
consume_all_adds_up scope id [] bs = (omega arith, refl, refl)
consume_all_adds_up scope id (n ∷ ns) bs =
    let (usage, hard, soft) = consume_all_adds_up scope id ns (consume_tokens scope id n bs).0 in
    let e = entry_of-consume_tokens scope id n bs in
    (
      omega (arith, usage, ap (λ (b : BudgetEntry). b.current_usage) e),
      hard ∙ ap (λ (b : BudgetEntry). b.hard_limit) e,
      soft ∙ ap (λ (b : BudgetEntry). b.soft_limit) e,
    )

same_or_other :
    (scope other : BudgetScope) (id id' : String) (b : BudgetEntry) (bs : Budgets)
    → id ≢ id'
    → entry_of other id' (set_scope scope (insert id b (of_scope scope bs)) bs)
      ≡ entry_of other id' bs
same_or_other scope other id id' b bs h = ground (arith, lookup-insert id id' b (of_scope scope bs))

-- A charge leaves every other budget alone: one of another scope, and one of another id.
pub consume_tokens_elsewhere :
    (scope other : BudgetScope) (id id' : String) (tokens : ℕ) (bs : Budgets)
    → (scope ≢ other) ⊎ (id ≢ id')
    → entry_of other id' (consume_tokens scope id tokens bs).0 ≡ entry_of other id' bs
unfolding consume_tokens
consume_tokens_elsewhere scope other id id' tokens bs (inl h) =
    rw (of_scope-set_scope_ne scope other _ bs h)
consume_tokens_elsewhere scope other id id' tokens bs (inr h) =
    same_or_other scope other id id' _ bs h

-- What a charge reports: `exceeded`, `warning` and `remaining` follow from the new usage; a budget
-- is never reduced and exceeded at once, and the reduction is at most half of the gap between the
-- limits, rounded up.
pub consume_result_consistent :
    (b : BudgetEntry)
    → let r = consume_result b in
      ((r.exceeded ≡ true) ↔ (b.hard_limit < b.current_usage))
      × ((r.exceeded ≡ true) → (r.remaining ≡ 0) × (r.reduced ≡ false) × (r.warning ≡ false))
      × (r.remaining ≤ b.hard_limit)
      × (r.reduction_amount * 2 ≤ b.hard_limit - b.soft_limit + 1)
unfolding consume_result
consume_result_consistent b = (ground arith, ground arith, ground arith, ground arith)
