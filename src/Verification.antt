-- ===== src/Verification.antt =====
-- src/v2/application/verification.
pub mod MergeQueue
pub mod Pipeline
