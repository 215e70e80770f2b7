-- ===== src/Catalog.antt =====
-- The catalog: the records of tables and indexes, and the manager that keeps them (catalog/ of the source).
pub mod Meta
pub mod Table
pub mod Index
pub mod Names
pub mod Manager
