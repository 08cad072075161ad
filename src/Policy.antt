-- ===== src/Policy.antt =====
-- src/v2/application/policy.
pub mod TokenBudget
pub mod Engine
pub mod PromptCache
