-- ===== src/Catalog/Manager.antt =====
-- The class CatalogManager of catalog/catalog.cpp, with TableInfo and IndexInfo of include/catalog/table.h
-- and indexes.h. A std::unordered_map is an association list, whose order stands for the one in which
-- the map is gone through; operator[] of an unknown key adds the default value, a null pointer or 0.
-- An operation returns the manager, the code, and what it writes to the caller's variables. The
-- transaction, the locks and the log are not modelled.
pub mod Indexes
pub mod Start
pub mod Sharing
pub mod Dropping
use wslproject.Base.{
  ℕ, List, [], ◌∷◌, ◌++◌, Option, none, some, Bool, true, false, Result, ok, err, ◌>>=◌, ◌==◌, ltb,
  if◌then◌else◌, null_pointer, map,
}
use wslproject.Base.Assoc.{lookup, insert, erase}
use wslproject.Base.Memory.{store}
use wslproject.Record.Schema.{Schema, deref}
use wslproject.Buffer.Pool.{BufferPool, new_page, unpin_page, delete_page}
use wslproject.Table.Heap as TableHeaps
use wslproject.Table.Heap.{TableHeap, frame_data, set_frame_data}
use wslproject.Catalog.Meta.{CatalogMeta}
use wslproject.Catalog.Table.{TableMetadata, create_table_metadata, serialize_table_metadata}
use wslproject.Catalog.Index.{IndexMetadata}
use wslproject.Catalog.Names.{find_name, set_name, erase_name}

-- The codes of common/dberr.h that the manager returns.
pub data DbErr : Type 0 where
  db_success db_failed db_table_already_exist db_table_not_exist db_index_already_exist
        db_index_not_found db_column_name_not_exist :
      DbErr

pub record TableInfo : Type 0 where
  pub table_meta : TableMetadata
  pub table_heap : TableHeap

-- The index itself, a B+ tree whose operations are not implemented, is the size of its keys; `none` is
-- the null pointer.
pub record IndexInfo : Type 0 where
  pub meta_data : IndexMetadata
  pub table_info : TableInfo
  pub key_schema : Schema
  pub index : Option ℕ

pub record CatalogManager : Type 0 where
  pub pool : BufferPool
  pub catalog_meta : CatalogMeta
  pub table_names : List (List ℕ × ℕ)
  pub tables : List (ℕ × Option TableInfo)
  pub index_names : List (List ℕ × List (List ℕ × ℕ))
  pub indexes : List (ℕ × IndexInfo)

-- operator[] of a std::map on the left of an assignment; its entries are in the order of the keys.
unfoldable pub assign : ℕ → ℕ → List (ℕ × ℕ) → List (ℕ × ℕ)
assign id page [] = (id, page) ∷ []
assign id page (entry ∷ rest) =
    if ltb id entry.0
    then (id, page) ∷ entry ∷ rest
    else if id == entry.0
    then (id, page) ∷ rest
    else entry ∷ assign id page rest

-- GetNextTableId and GetNextIndexId: the last key.
unfoldable pub next_id : List (ℕ × ℕ) → ℕ
next_id [] = 0
next_id (entry ∷ []) = entry.0
next_id (entry ∷ next ∷ rest) = next_id (next ∷ rest)

-- `tables_[table_id]` as a value: the map, and the pointer.
abbrev pub value_or_null : Option (Option TableInfo) → Option TableInfo
value_or_null none = none
value_or_null (some info) = info

abbrev pub with_key : ℕ → List (ℕ × Option TableInfo) → List (ℕ × Option TableInfo)
with_key id tables = elim (lookup id tables) [ none ↦ insert id none tables | some info ↦ tables ]

unfoldable pub table_at : CatalogManager → ℕ → CatalogManager × Option TableInfo
table_at c table_id =
    (record c { tables = with_key table_id c.tables }, value_or_null (lookup table_id c.tables))

-- CreateTable, with the page for the record of the table, its frame and its id.
unfoldable pub create_table_in :
    CatalogManager
    → List ℕ
    → Schema
    → ℕ
    → ℕ
    → ℕ
    → Result (CatalogManager × DbErr × Option TableInfo)
create_table_in c table_name schema table_id frame page_id = do
  let meta : CatalogMeta = record c.catalog_meta {
    table_meta_pages = assign table_id page_id c.catalog_meta.table_meta_pages;
  }
  (created, table_heap) ← TableHeaps.create c.pool schema
  let table_meta : TableMetadata =
      create_table_metadata table_id table_name table_heap.first_page_id schema
  (bytes, _) ← serialize_table_metadata table_meta
  page_data ← frame_data created frame
  written ← store page_data 0 bytes
  (released, _) ← unpin_page (set_frame_data created frame written) page_id true
  let info : TableInfo = record { table_meta = table_meta; table_heap = table_heap }
  ok (
    record c {
      pool = released;
      catalog_meta = meta;
      tables = insert table_id (some info) c.tables;
    },
    db_success,
    some info,
  )

-- The rest of CreateTable once there is no page to be had: the table's own page cannot be had either,
-- and if it could, the record would be written through the null pointer.
unfoldable pub create_table_missing :
    CatalogManager → Schema → Result (CatalogManager × DbErr × Option TableInfo)
create_table_missing c schema = do
  (created, table_heap) ← TableHeaps.create c.pool schema
  err null_pointer

-- CreateTable, with what NewPage answers.
unfoldable pub create_table_made :
    CatalogManager
    → List ℕ
    → Schema
    → ℕ
    → Option (ℕ × ℕ)
    → Result (CatalogManager × DbErr × Option TableInfo)
create_table_made c table_name schema table_id none = create_table_missing c schema
create_table_made c table_name schema table_id (some (frame, page_id)) =
    create_table_in c table_name schema table_id frame page_id

-- CreateTable, with what is known of the name.
unfoldable pub create_table_named :
    CatalogManager → List ℕ → Schema → Option ℕ → Result (CatalogManager × DbErr × Option TableInfo)
create_table_named c table_name schema (some known_id) = ok (c, db_table_already_exist, none)
create_table_named c table_name schema none = do
  let table_id : ℕ = next_id c.catalog_meta.table_meta_pages
  (made, new) ← new_page c.pool
  create_table_made
      (record c { pool = made; table_names = set_name table_name table_id c.table_names })
      table_name schema table_id new

-- CreateTable
unfoldable pub create_table :
    CatalogManager → List ℕ → Schema → Result (CatalogManager × DbErr × Option TableInfo)
create_table c table_name schema =
    create_table_named c table_name schema (find_name table_name c.table_names)

-- GetTable of a name: the pointer may be null.
unfoldable pub get_table_named :
    CatalogManager → Option ℕ → CatalogManager × DbErr × Option TableInfo
get_table_named c none = (c, db_table_not_exist, none)
get_table_named c (some table_id) =
    let (searched, info) = table_at c table_id in (searched, db_success, info)

unfoldable pub get_table : CatalogManager → List ℕ → CatalogManager × DbErr × Option TableInfo
get_table c table_name = get_table_named c (find_name table_name c.table_names)

-- GetTable of an id
unfoldable pub get_table_by_id : CatalogManager → ℕ → CatalogManager × DbErr × Option TableInfo
get_table_by_id c table_id = elim (lookup table_id c.catalog_meta.table_meta_pages) [
  | none ↦ (c, db_table_not_exist, none)
  | some page_id ↦ let (searched, info) = table_at c table_id in (searched, db_success, info)
]

-- GetTables, which adds to `tables`.
unfoldable pub get_tables :
    CatalogManager → List (Option TableInfo) → DbErr × List (Option TableInfo)
get_tables c tables = elim c.tables [
  | [] ↦ (db_failed, tables)
  | entry ∷ rest ↦ (db_success, tables ++ map (λ (e : ℕ × Option TableInfo). e.1) (entry ∷ rest))
]

-- The page of a record, 0 if it is unknown.
abbrev pub page_or_zero : Option ℕ → ℕ
page_or_zero none = 0
page_or_zero (some page_id) = page_id

-- DropTable, with what is known of the name.
unfoldable pub drop_table_named :
    CatalogManager → List ℕ → Option ℕ → Result (CatalogManager × DbErr)
drop_table_named c table_name none = ok (c, db_table_not_exist)
drop_table_named c table_name (some table_id) = do
  let page_id : ℕ = page_or_zero (lookup table_id c.catalog_meta.table_meta_pages)
  (deleted, _) ← delete_page c.pool page_id
  ok (
    record c {
      pool = deleted;
      catalog_meta = record c.catalog_meta {
        table_meta_pages = erase table_id c.catalog_meta.table_meta_pages;
      };
      table_names = erase_name table_name c.table_names;
      tables = erase table_id c.tables;
    },
    db_success,
  )

-- DropTable
unfoldable pub drop_table : CatalogManager → List ℕ → Result (CatalogManager × DbErr)
drop_table c table_name = drop_table_named c table_name (find_name table_name c.table_names)
