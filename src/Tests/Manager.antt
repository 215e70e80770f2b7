-- ===== src/Tests/Manager.antt =====
-- A catalog with one table, and a second one that gets the same id (catalog/catalog.cpp).
use wslproject.Base.{
  ℕ, ◌≡◌, ◌≢◌, refl, List, [], ◌∷◌, Option, none, some, Bool, true, false, Result, ok, err, ◌>>=◌,
  ◌⊎◌, replicate,
}
use wslproject.Base.Assoc.{lookup, insert, erase}
use wslproject.Base.Memory.{store, store_u32, splice, word}
use wslproject.Pages.TablePage
use wslproject.Buffer.Pool
use wslproject.Buffer.Lru
use wslproject.Record.Schema.{name_eq, serialize_schema, schema_serialized_size}
use wslproject.Record.Column.{column_serialized_size, serialize_column}
use wslproject.Base.Bytes.{read_u32, write_u32, write_bool}
use wslproject.Base.Bits.{or_bit}
use wslproject.Pages.Bitmap
use wslproject.Pages.Bitmap.{is_page_free_low, next_free, search_free}
use wslproject.Pages.Bitmap.Memory.{read_bitmap, write_bitmap}
use wslproject.Storage.Disk
use wslproject.Storage.Disk.{
  find_extent, allocate_in, read_physical_page, bitmap_address, allocate_new, get_extent_used_page,
  increment_used, map_page_id, write_page, write_physical_page, new_disk,
}
use wslproject.Buffer.Lru.{victim, victim_of, unpin}
use wslproject.Buffer.Pool.{
  BufferPool, new_pool, new_page, unpin_page, delete_page, delete_found, any_unpinned, install_page,
  take_frame, take_from, count_up, page_at, set_page, write_back,
}
use wslproject.Table.Heap as TableHeaps
use wslproject.Table.Heap.{TableHeap, frame_data, set_frame_data}
use wslproject.Catalog.Table.{
  TableMetadata, create_table_metadata, serialize_table_metadata, table_metadata_size,
}
use wslproject.Catalog.Names.{find_name}
use wslproject.Catalog.Manager.{
  CatalogManager, db_success, db_table_not_exist, TableInfo, next_id, create_table, drop_table,
}
use wslproject.Catalog.Manager.Sharing.{answer_of, create_table-get_table}
use wslproject.Catalog.Manager.Dropping.{without_table, drop_table-get_table}
use wslproject.Tests.Storage.{one_disk}
use wslproject.Tests.TablePage.{numbers}

abbrev pair_of {ℓ} : {A : Type ℓ} → A → Result A → A
pair_of x (ok y) = y
pair_of x (err e) = x

abbrev old_name : List ℕ
old_name = 116 ∷ []

abbrev second_name : List ℕ
second_name = 117 ∷ []

abbrev old_info : TableInfo
old_info = record {
  table_meta = create_table_metadata 0 old_name 3 numbers;
  table_heap = record { first_page_id = 3; schema = numbers };
}

abbrev one_table : CatalogManager
one_table = record {
  pool = new_pool 2 one_disk;
  catalog_meta = record { table_meta_pages = (0, 0) ∷ []; index_meta_pages = [] };
  table_names = (old_name, 0) ∷ [];
  tables = (0, some old_info) ∷ [];
  index_names = [];
  indexes = [];
}

abbrev first_page : BufferPool × Option (ℕ × ℕ)
first_page = pair_of (one_table.pool, none) (new_page one_table.pool)

abbrev heap_made : BufferPool × TableHeap
heap_made =
    pair_of (first_page.0, record { first_page_id = 0; schema = numbers })
      (TableHeaps.create first_page.0 numbers)

first_page-eq : new_page one_table.pool ≡ ok (first_page.0, some (0, 1))
unfolding new_page any_unpinned new_pool install_page take_frame take_from count_up
    Disk.allocate_page find_extent allocate_in read_physical_page bitmap_address read_bitmap
    read_u32 write_bitmap write_u32 Bitmap.allocate_page erase insert or_bit victim victim_of
    page_at set_page write_back is_page_free_low next_free search_free allocate_new
    get_extent_used_page increment_used map_page_id write_page write_physical_page
first_page-eq = refl

heap_made-eq : TableHeaps.create first_page.0 numbers ≡ ok heap_made
unfolding TableHeaps.create TablePage.init store_u32 store splice word unpin_page Pool.unpin_found
    unpin Lru.unpin_found new_page any_unpinned new_pool install_page take_frame take_from count_up
    Disk.allocate_page find_extent allocate_in read_physical_page bitmap_address read_bitmap
    read_u32 write_bitmap write_u32 Bitmap.allocate_page erase insert or_bit victim victim_of
    page_at set_page write_back is_page_free_low next_free search_free allocate_new
    get_extent_used_page increment_used map_page_id write_page write_physical_page lookup
heap_made-eq = refl

abbrev second_meta : TableMetadata
second_meta = create_table_metadata 0 second_name heap_made.1.first_page_id numbers

abbrev second_bytes : List ℕ × ℕ
second_bytes = pair_of ([], 0) (serialize_table_metadata second_meta)

second_bytes-eq : serialize_table_metadata second_meta ≡ ok second_bytes
unfolding serialize_table_metadata table_metadata_size schema_serialized_size column_serialized_size
    serialize_schema serialize_column write_u32 write_bool
second_bytes-eq = refl

abbrev second_page : List ℕ
second_page = pair_of [] (store (replicate 4096 0) 0 second_bytes.0)

second_page-eq : store (replicate 4096 0) 0 second_bytes.0 ≡ ok second_page
unfolding store serialize_table_metadata table_metadata_size schema_serialized_size
    column_serialized_size serialize_schema serialize_column write_u32 write_bool
second_page-eq = refl

read_back : frame_data heap_made.0 0 ≡ ok (replicate 4096 0)
unfolding TableHeaps.create TablePage.init store_u32 store splice word unpin_page Pool.unpin_found
    unpin Lru.unpin_found new_page any_unpinned new_pool install_page take_frame take_from count_up
    Disk.allocate_page find_extent allocate_in read_physical_page bitmap_address read_bitmap
    read_u32 write_bitmap write_u32 Bitmap.allocate_page erase insert or_bit victim victim_of
    page_at set_page write_back is_page_free_low next_free search_free allocate_new
    get_extent_used_page increment_used map_page_id write_page write_physical_page lookup
read_back = refl

abbrev released : BufferPool × Bool
released =
    pair_of (heap_made.0, false) (unpin_page (set_frame_data heap_made.0 0 second_page) 1 true)

released-eq : unpin_page (set_frame_data heap_made.0 0 second_page) 1 true ≡ ok released
unfolding TableHeaps.create TablePage.init store_u32 store splice word unpin_page Pool.unpin_found
    unpin Lru.unpin_found new_page any_unpinned new_pool install_page take_frame take_from count_up
    Disk.allocate_page find_extent allocate_in read_physical_page bitmap_address read_bitmap
    read_u32 write_bitmap write_u32 Bitmap.allocate_page erase insert or_bit victim victim_of
    page_at set_page write_back is_page_free_low next_free search_free allocate_new
    get_extent_used_page increment_used map_page_id write_page write_physical_page lookup
released-eq = refl

create_table-get_table_example :
    (c' : CatalogManager) × (info : TableInfo) × (create_table one_table second_name numbers
      ≡ ok (c', db_success, some info))
    × (info.table_meta.table_name ≡ second_name)
    × ((one_table.catalog_meta.table_meta_pages ≡ [])
        ⊎ (lookup 0 one_table.catalog_meta.table_meta_pages ≢ none))
    × ((other : List ℕ)
        → (name_eq second_name other ≡ true) ⊎ (find_name other one_table.table_names ≡ some 0)
        → answer_of c' other ≡ (db_success, some info))
    × ((other : List ℕ) (other_id : ℕ)
        → find_name other one_table.table_names ≡ some other_id
        → name_eq second_name other ≡ false
        → other_id ≢ 0
        → answer_of c' other ≡ answer_of one_table other)
unfolding find_name name_eq next_id
create_table-get_table_example =
    create_table-get_table one_table second_name numbers first_page.0 heap_made.0 released.0
      heap_made.1 0 1 0 second_bytes.1 second_bytes.0 (replicate 4096 0) second_page released.1 refl
      refl first_page-eq heap_made-eq second_bytes-eq read_back second_page-eq released-eq

abbrev no_page : BufferPool × Bool
no_page = pair_of (one_table.pool, false) (delete_page one_table.pool 0)

no_page-eq : delete_page one_table.pool 0 ≡ ok no_page
unfolding delete_page delete_found new_pool lookup Disk.deallocate_page Disk.release
    Bitmap.deallocate_page read_physical_page bitmap_address read_bitmap read_u32 write_bitmap
    write_u32
no_page-eq = refl

drop_table-get_table_example :
    (c' : CatalogManager) × (drop_table one_table old_name ≡ ok (c', db_success))
    × (c'.pool ≡ no_page.0)
    × (answer_of c' old_name ≡ (db_table_not_exist, none))
    × ((other : List ℕ)
        → find_name other one_table.table_names ≡ some 0
        → name_eq old_name other ≡ false
        → answer_of c' other ≡ (db_success, none))
    × ((other : List ℕ)
        → find_name other one_table.table_names ≡ some 0
        → name_eq old_name other ≡ false
        → drop_table c' other ≡ (
            delete_page c'.pool 0 >>= λ deleted.
            ok (without_table c' other 0 deleted.0, db_success)))
    × ((other : List ℕ) (other_id : ℕ)
        → find_name other one_table.table_names ≡ some other_id
        → other_id ≢ 0
        → answer_of c' other ≡ answer_of one_table other)
unfolding find_name name_eq lookup
drop_table-get_table_example =
    drop_table-get_table one_table old_name 0 no_page.0 no_page.1 refl no_page-eq
