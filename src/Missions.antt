-- ===== src/Missions.antt =====
-- src/v2/application/missions, a module per file.
pub mod Graph
pub mod Plan
pub mod ReadyQueue
pub mod Execution
pub mod Attempts
pub mod Engine
pub mod Planner
pub mod Planning
pub mod Assignment
