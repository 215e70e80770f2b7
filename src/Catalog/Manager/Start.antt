-- ===== src/Catalog/Manager/Start.antt =====
-- The constructor and destructor of CatalogManager, LoadTable, LoadIndex and FlushCatalogMetaPage, in
-- catalog/catalog.cpp. What a destructor frees is not modelled, nor the next ids that no one reads. Of
-- LoadIndex, which the source defines twice with the same body, this is either.
use wslproject.Base.{
  ℕ, List, [], ◌∷◌, none, some, Bool, true, false, Result, ok, ◌>>=◌, if◌then◌else◌,
}
use wslproject.Base.Assoc.{lookup, insert}
use wslproject.Base.Memory.{store}
use wslproject.Record.Schema.{deref}
use wslproject.Buffer.Pool.{BufferPool, fetch_page, flush_page}
use wslproject.Table.Heap.{frame_data, set_frame_data}
use wslproject.Catalog.Meta.{CatalogMeta, serialize_catalog_meta, deserialize_catalog_meta}
use wslproject.Catalog.Table.{TableMetadata, deserialize_table_metadata}
use wslproject.Catalog.Index.{IndexMetadata, deserialize_index_metadata}
use wslproject.Catalog.Names.{find_name, set_name}
use wslproject.Catalog.Manager.{
  CatalogManager, DbErr, db_success, db_failed, db_table_already_exist, db_index_already_exist,
  assign, table_at,
}
use wslproject.Catalog.Manager.Indexes.{init_index, names_or_empty}

-- CATALOG_META_PAGE_ID of common/config.h
abbrev pub catalog_meta_page_id : ℕ
catalog_meta_page_id = 0

-- A page that is fetched, and its bytes; a null page is followed.
unfoldable pub fetch_data : CatalogManager → ℕ → Result (CatalogManager × ℕ × List ℕ)
fetch_data c page_id = do
  (fetched, found) ← fetch_page c.pool page_id
  frame ← deref found
  page_data ← frame_data fetched frame
  ok (record c { pool = fetched }, frame, page_data)

-- The table with this record, whose heap starts at `first_page_id`, is entered.
abbrev pub enter_table : CatalogManager → ℕ → TableMetadata → ℕ → CatalogManager
enter_table c table_id table_meta first_page_id = record c {
  table_names = set_name table_meta.table_name table_id c.table_names;
  tables =
      insert table_id
        (some (record {
          table_meta = table_meta;
          table_heap = record { first_page_id = first_page_id; schema = table_meta.schema };
        }))
        c.tables;
}

-- The index with this record is entered under its id, or the one that the caller says.
unfoldable pub enter_index : CatalogManager → ℕ → IndexMetadata → Result CatalogManager
enter_index c index_id index_meta = do
  let (searched, found) = table_at c index_meta.table_id
  table_info ← deref found
  let table_name : List ℕ = table_info.table_meta.table_name
  let names : List (List ℕ × ℕ) = names_or_empty (find_name table_name searched.index_names)
  info ← init_index index_meta found
  ok (record searched {
    index_names =
        set_name table_name (set_name index_meta.index_name index_id names) searched.index_names;
    indexes = insert index_id info searched.indexes;
  })

-- The loops of the constructor over the pages of the records.
unfoldable pub read_tables : List (ℕ × ℕ) → CatalogManager → Result CatalogManager
unfolding fetch_data
read_tables [] c = ok c
read_tables (entry ∷ rest) c = do
  (fetched, _, page_data) ← fetch_data c entry.1
  (table_meta, _) ← deserialize_table_metadata page_data
  read_tables rest (enter_table fetched table_meta.table_id table_meta table_meta.root_page_id)

unfoldable pub read_indexes : List (ℕ × ℕ) → CatalogManager → Result CatalogManager
unfolding fetch_data enter_index
read_indexes [] c = ok c
read_indexes (entry ∷ rest) c = do
  (fetched, _, page_data) ← fetch_data c entry.1
  (index_meta, _) ← deserialize_index_metadata page_data
  entered ← enter_index fetched index_meta.index_id index_meta
  read_indexes rest entered

-- A manager without tables.
abbrev pub empty_manager : BufferPool → CatalogManager
empty_manager p = record {
  pool = p;
  catalog_meta = record { table_meta_pages = []; index_meta_pages = [] };
  table_names = [];
  tables = [];
  index_names = [];
  indexes = [];
}

-- The constructor, with the flag `init`.
unfoldable pub new_manager : BufferPool → Bool → Result CatalogManager
new_manager p true = ok (empty_manager p)
new_manager p false = do
  (fetched, _, page_data) ← fetch_data (empty_manager p) catalog_meta_page_id
  meta ← deserialize_catalog_meta page_data
  with_tables ← read_tables meta.table_meta_pages (record fetched { catalog_meta = meta })
  read_indexes meta.index_meta_pages with_tables

-- FlushCatalogMetaPage, which the destructor calls.
unfoldable pub flush_catalog_meta_page : CatalogManager → Result (CatalogManager × DbErr)
unfolding fetch_data
flush_catalog_meta_page c = do
  (fetched, frame, page_data) ← fetch_data c catalog_meta_page_id
  bytes ← serialize_catalog_meta c.catalog_meta
  written ← store page_data 0 bytes
  (flushed, answer) ← flush_page (set_frame_data fetched.pool frame written) catalog_meta_page_id
  ok (record c { pool = flushed }, if answer then db_success else db_failed)

-- LoadTable, which takes the page of the record for the first page of the table.
unfoldable pub load_table : CatalogManager → ℕ → ℕ → Result (CatalogManager × DbErr)
load_table c table_id page_id = elim (lookup table_id c.tables) [
  | some info ↦ ok (c, db_table_already_exist)
  | none ↦ do
    (fetched, _, page_data) ← fetch_data c page_id
    (table_meta, _) ← deserialize_table_metadata page_data
    let meta : CatalogMeta = record c.catalog_meta {
      table_meta_pages = assign table_id page_id c.catalog_meta.table_meta_pages;
    }
    let entered : CatalogManager = enter_table fetched table_id table_meta page_id
    ok (record entered { catalog_meta = meta }, db_success)
]

-- LoadIndex
unfoldable pub load_index : CatalogManager → ℕ → ℕ → Result (CatalogManager × DbErr)
load_index c index_id page_id = elim (lookup index_id c.indexes) [
  | some info ↦ ok (c, db_index_already_exist)
  | none ↦ do
    (fetched, _, page_data) ← fetch_data c page_id
    (index_meta, _) ← deserialize_index_metadata page_data
    let meta : CatalogMeta = record c.catalog_meta {
      index_meta_pages = assign index_id page_id c.catalog_meta.index_meta_pages;
    }
    entered ← enter_index (record fetched { catalog_meta = meta }) index_id index_meta
    ok (entered, db_success)
]
