-- ===== src/Planner.antt =====
-- The planner: logical plans and the operators that are built from them.
pub mod PhysicalPlanner
mod Tests
