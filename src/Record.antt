-- ===== src/Record.antt =====
-- Values, columns, schemas and rows, with their storage format: src/record and include/record.
pub mod Types
pub mod Column
pub mod Schema
pub mod Row
