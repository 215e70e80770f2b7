-- ===== src/Lib.antt =====
-- MiniSQL is a small database engine in C++: values, rows and schemas with their storage formats
-- (MiniSQL/src/record), pages with a fixed layout (MiniSQL/src/page), a disk manager that keeps the
-- pages of one file (MiniSQL/src/storage), a buffer pool that holds some of them in memory
-- (MiniSQL/src/buffer), and above them tables of rows, a catalog, indexes, a planner and executors.
-- This library models the lower layers, the catalog, the expressions and the execution of plans, as
-- they are written, and proves what they promise.
--
-- How the files correspond to the code:
-- - Base: shared names. Base/Bytes is the MACH_READ and MACH_WRITE macros of include/common/macros.h
--   on lists of bytes; Base/Bits the operations on single bits of a byte; Base/Assoc the unordered
--   maps; Base/Memory a block of memory that is read and written at an offset; Base/Results the
--   faults: a failed ASSERT, an access out of bounds, an exception, a loop that needs more rounds
--   than given.
-- - Record/Types: record/types.cpp, include/record/types.h and field.h. TypeInt, TypeFloat and
--   TypeChar dispatch on a TypeId; serialize_field, deserialize_field and compare_fields are
--   Field::SerializeTo, DeserializeFrom and the six comparisons. Record/Column, Record/Schema and
--   Record/Row are column.cpp, schema.cpp and row.cpp: an operation that writes to a buffer returns
--   the bytes with the size that the source returns.
-- - Pages/Bitmap: page/bitmap_page.cpp. Pages/IndexRoots: page/index_roots_page.cpp.
-- - Pages/TablePage: page/table_page.cpp on the 4096 bytes of the page, with the getters and setters
--   of include/page/table_page.h in Pages/TableFields. The operations have the names of the methods.
--   Pages/TablePage/Layout has the view, slot by slot the bytes of its tuple and whether it is
--   marked, and the invariant: the tuples lie apart behind the free space.
-- - Table/Heap: storage/table_heap.cpp and include/storage/table_heap.h; Table/Iterator:
--   storage/table_iterator.cpp. A table is a chain of table pages in the buffer pool.
-- - Storage/Disk: storage/disk_manager.cpp. The file is a function from physical page ids to bytes
--   and its length; the state is that and the meta page. allocate_page, deallocate_page, is_page_free_at, read_page
--   and write_page are the methods; map_page_id is MapPageId.
-- - Buffer/Lru: buffer/lru_replacer.cpp. The list has nodes with addresses, and the table of
--   iterators leads to them. Buffer/Pool: buffer/buffer_pool_manager.cpp over Storage/Disk and
--   Buffer/Lru. The state is the array of pages, the page table, the free list, the replacer and the
--   disk manager; a pointer to a page is its frame.
-- - Catalog/Meta, Catalog/Table and Catalog/Index: the storage formats of CatalogMeta, TableMetadata
--   and IndexMetadata, in catalog/catalog.cpp, table.cpp and indexes.cpp. Catalog/Manager is
--   CatalogManager of catalog/catalog.cpp: the operations on tables, with those on indexes in
--   Catalog/Manager/Indexes and the constructor, LoadTable, LoadIndex and FlushCatalogMetaPage in
--   Catalog/Manager/Start.
-- - Planner/Expressions: include/planner/expressions, expression trees and their evaluation on rows.
-- - Executor: CreateExecutor and ExecutePlan of executor/execute_engine.cpp, and the executors of
--   executor/.
-- - Tests: runs on small inputs, and the theorems applied to them.
--
-- How the parts interact: the disk manager reads and writes the bitmap page of an extent by
-- Pages/Bitmap/Memory and allocates in it by Pages/Bitmap; the buffer pool calls read_page,
-- write_page, allocate_page and deallocate_page of the disk manager, and victim, pin and unpin of the
-- replacer. A table heap fetches the pages of its chain from the pool, calls the table page's methods
-- on their bytes in the frame, and unpins them; the table page writes rows by Record/Row. The
-- catalog's manager makes table heaps, and writes its records to pages of the pool. Buffer/Pool/Valid
-- has the invariant of the pool, which contains those of the disk manager (Storage/Disk/Extents) and
-- of the replacer (Buffer/Lru/Order), and the view, the pages as callers see them: those of the file
-- with the pool's in their place.
--
-- Numbers are native. A 32-bit value is the pattern below 2 ^ 32, with % 2 ^ 32 where the source's
-- counter wraps round; a float is its pattern, compared by the rules of IEEE 754. Loops are recursion
-- on the number of rounds that are left, which the caller gives as the source does, so that no fuel
-- can run out. The loops over the chain of a table, and the loop of ExecutePlan, have no such number
-- in the source: they are for at most `rounds` pages or calls, and what takes more ends in the fault
-- out_of_rounds. One round is enough for a row that finds room in the first page of its table, and
-- one more than there are rows for a plan of values. Theorems on the disk manager are for the first
-- 16 extents (523264 pages) of a file shorter than 2 GB: behind 2 GB the offset of ReadPhysicalPage,
-- an int, overflows, and read_physical_page answers a fault; and GetFileSize, an int as well, is
-- negative for a file of 2 GB, of which every page is then read as zeros.
--
-- Not modelled: the latches and the log; errors of the file system, Close, and the opening of an
-- existing file; who owns memory; header_page.cpp; the planner and the commands of ExecuteEngine,
-- most of which are stubs, as are the B+ tree and its pages; the generated scanner and parser.
pub mod Base
pub mod Record
pub mod Pages
pub mod Storage
pub mod Buffer
pub mod Catalog
pub mod Planner
pub mod Table
pub mod Executor
pub mod Tests
