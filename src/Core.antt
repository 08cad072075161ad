-- ===== src/Core.antt =====
-- The single-task engine of src/core/application/services: what it does to a workspace that is a
-- Git repository.
pub mod Repository
pub mod Patches
pub mod Commands
pub mod Round
pub mod TaskRun
