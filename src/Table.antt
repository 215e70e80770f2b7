-- ===== src/Table.antt =====
-- The tables: src/storage/table_heap.cpp and table_iterator.cpp, over the buffer pool and the table pages.
pub mod Heap
pub mod Iterator
