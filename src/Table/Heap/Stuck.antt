-- ===== src/Table/Heap/Stuck.antt =====
-- UpdateTuple and ApplyDelete of storage/table_heap.cpp, whose test for the null pointer is inverted.
use wslproject.Record.Row.{Row}
