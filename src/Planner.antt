-- ===== src/Planner.antt =====
-- The expressions of query plans (planner/ of the source).
pub mod Expressions
