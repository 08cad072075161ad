-- ===== src/Workers.antt =====
-- The workers: src/v2/domain/employees, src/v2/application/worker and
-- src/v2/application/runtime.
pub mod Worker
pub mod LifecyclePolicy
pub mod Store
pub mod Supervisor
pub mod Workspace
pub mod TaskExecution
