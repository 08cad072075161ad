-- ===== src/Resilience.antt =====
-- src/v2/infrastructure/resilience.
pub mod Guardian
