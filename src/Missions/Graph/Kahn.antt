-- ===== src/Missions/Graph/Kahn.antt =====
-- What the two loops of task_graph.ts compute.
mod Relax
mod Inv
pub mod Fuel
pub mod Order
pub mod Complete
