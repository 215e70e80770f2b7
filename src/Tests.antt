-- ===== src/Tests.antt =====
-- Runs of the program on small inputs, and the theorems applied to them.
mod Storage
mod Buffer
mod Record
mod Pages
mod Catalog
mod Planner
mod TablePage
mod Table
mod Manager
mod Executor
