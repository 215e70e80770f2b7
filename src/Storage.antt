-- ===== src/Storage.antt =====
-- The database file and what stands on it: src/storage.
pub mod Disk
