-- ===== src/Buffer.antt =====
-- The buffer pool (buffer/ of the source).
pub mod Lru
pub mod Pool
