-- ===== src/Catalog/Manager/Indexes.antt =====
-- The operations of CatalogManager on indexes, in catalog/catalog.cpp, and IndexInfo of
-- include/catalog/indexes.h and catalog/indexes.cpp.
use wslproject.Base.{
  ℕ, ◌+◌, List, [], ◌∷◌, ◌++◌, Option, none, some, Bool, true, false, Result, ok, err, ◌>>=◌, leb,
  if◌then◌else◌, null_pointer, out_of_range,
}
use wslproject.Base.Assoc.{lookup, insert, erase}
use wslproject.Base.Memory.{store}
use wslproject.Record.Column.{Column}
use wslproject.Record.Schema.{Schema, deref, name_eq, get_column_index, shallow_copy_schema}
use wslproject.Buffer.Pool.{BufferPool, new_page, unpin_page, delete_page}
use wslproject.Table.Heap.{frame_data, set_frame_data}
use wslproject.Catalog.Meta.{CatalogMeta}
use wslproject.Catalog.Index.{IndexMetadata, create_index_metadata, serialize_index_metadata}
use wslproject.Catalog.Names.{find_name, set_name, erase_name}
use wslproject.Catalog.Manager.{
  CatalogManager, DbErr, db_success, db_table_not_exist, db_index_already_exist, db_index_not_found,
  db_column_name_not_exist, TableInfo, IndexInfo, assign, next_id, table_at, page_or_zero,
}

-- The sum of the lengths of the key's columns.
unfoldable pub key_length : List (Option Column) → Result ℕ
key_length [] = ok 0
key_length (none ∷ columns) = err null_pointer
key_length (some column ∷ columns) = do n ← key_length columns; ok (column.len + n)

-- IndexInfo::CreateIndex of the type "bptree": the size of the keys, or null if they are too large.
unfoldable pub create_index_of : Schema → Result (Option ℕ)
create_index_of key_schema = do
  max_size ← key_length key_schema.columns
  ok (
      if leb max_size 8
      then some 16
      else if leb max_size 24
      then some 32
      else if leb max_size 56
      then some 64
      else if leb max_size 120
      then some 128
      else if leb max_size 248
      then some 256
      else none)

-- IndexInfo::Init
unfoldable pub init_index : IndexMetadata → Option TableInfo → Result IndexInfo
init_index meta_data found = do
  table_info ← deref found
  key_schema ← shallow_copy_schema table_info.table_meta.schema meta_data.key_map
  index ← create_index_of key_schema
  ok (record {
    meta_data = meta_data;
    table_info = table_info;
    key_schema = key_schema;
    index = index;
  })

-- The loop of CreateIndex over the names of the key's columns; `none` is DB_COLUMN_NAME_NOT_EXIST.
unfoldable pub key_map_of : Schema → List (List ℕ) → Result (Option (List ℕ))
key_map_of schema [] = ok (some [])
key_map_of schema (name ∷ index_keys) =
    let rest = key_map_of schema index_keys in
    do
      found ← get_column_index schema name
      elim found [
        | none ↦ ok none
        | some col_idx ↦ do
          key_map ← rest
          elim key_map [ none ↦ ok none | some indexes ↦ ok (some (col_idx ∷ indexes)) ]
      ]

-- The names of the indexes of a table, none if there is no entry for it.
abbrev pub names_or_empty : Option (List (List ℕ × ℕ)) → List (List ℕ × ℕ)
names_or_empty none = []
names_or_empty (some names) = names

-- CreateIndex, with the page for the record of the index, its frame and its id. The record is written
-- after the page is given back.
unfoldable pub create_index_in :
    CatalogManager
    → IndexMetadata
    → Option TableInfo
    → ℕ
    → ℕ
    → Result (CatalogManager × DbErr × Option IndexInfo)
create_index_in c index_meta table_info frame page_id = do
  (released, _) ← unpin_page c.pool page_id true
  (bytes, _) ← serialize_index_metadata index_meta
  page_data ← frame_data released frame
  written ← store page_data 0 bytes
  info ← init_index index_meta table_info
  ok (
    record c {
      pool = set_frame_data released frame written;
      catalog_meta = record c.catalog_meta {
        index_meta_pages = assign index_meta.index_id page_id c.catalog_meta.index_meta_pages;
      };
      indexes = insert index_meta.index_id info c.indexes;
    },
    db_success,
    some info,
  )

-- CreateIndex of a name that is new for the table, whose entry is in the map by now.
unfoldable pub create_index_named :
    CatalogManager
    → ℕ
    → List ℕ
    → List ℕ
    → List (List ℕ)
    → Option TableInfo
    → Result (CatalogManager × DbErr × Option IndexInfo)
create_index_named c table_id table_name index_name index_keys found = do
  table_info ← deref found
  key_map ← key_map_of table_info.table_meta.schema index_keys
  elim key_map [
    | none ↦ ok (c, db_column_name_not_exist, none)
    | some key_indexes ↦ do
      let index_id : ℕ = next_id c.catalog_meta.index_meta_pages
      let names : List (List ℕ × ℕ) = names_or_empty (find_name table_name c.index_names)
      (made, new) ← new_page c.pool
      let named : CatalogManager = record c {
        pool = made;
        index_names = set_name table_name (set_name index_name index_id names) c.index_names;
      }
      elim new [
        | none ↦ err null_pointer
        | some (frame, page_id) ↦
            create_index_in named (create_index_metadata index_id index_name table_id key_indexes)
              found frame page_id
      ]
  ]

-- CreateIndex
unfoldable pub create_index :
    CatalogManager
    → List ℕ
    → List ℕ
    → List (List ℕ)
    → Result (CatalogManager × DbErr × Option IndexInfo)
create_index c table_name index_name index_keys = elim (find_name table_name c.table_names) [
  | none ↦ ok (c, db_table_not_exist, none)
  | some table_id ↦
      let names : List (List ℕ × ℕ) = names_or_empty (find_name table_name c.index_names) in
      let entered : CatalogManager = record c {
        index_names = set_name table_name names c.index_names;
      } in
      elim (find_name index_name names) [
        | some index_id ↦ ok (entered, db_index_already_exist, none)
        | none ↦
            let (searched, table_info) = table_at entered table_id in
            create_index_named searched table_id table_name index_name index_keys table_info
      ]
]

-- GetIndex, whose `at` throws for a table that no index was ever created for.
unfoldable pub get_index : CatalogManager → List ℕ → List ℕ → Result (DbErr × Option IndexInfo)
get_index c table_name index_name = elim (find_name table_name c.table_names) [
  | none ↦ ok (db_table_not_exist, none)
  | some table_id ↦ elim (find_name table_name c.index_names) [
    | none ↦ err out_of_range
    | some names ↦ elim (find_name index_name names) [
      | none ↦ ok (db_index_not_found, none)
      | some index_id ↦ elim (lookup index_id c.indexes) [
        | none ↦ err out_of_range
        | some info ↦ ok (db_success, some info)
      ]
    ]
  ]
]

-- The loop of GetTableIndexes.
unfoldable pub indexes_of : List ℕ → List (ℕ × IndexInfo) → List IndexInfo
indexes_of table_name [] = []
indexes_of table_name (entry ∷ rest) =
    let others = indexes_of table_name rest in
    if name_eq entry.1.table_info.table_meta.table_name table_name then entry.1 ∷ others else others

-- GetTableIndexes, which adds to `indexes`.
unfoldable pub get_table_indexes : CatalogManager → List ℕ → List IndexInfo → DbErr × List IndexInfo
get_table_indexes c table_name indexes = elim (find_name table_name c.table_names) [
  | none ↦ (db_table_not_exist, indexes)
  | some table_id ↦ (db_success, indexes ++ indexes_of table_name c.indexes)
]

-- DropIndex, which forgets the names of all indexes of the table.
unfoldable pub drop_index : CatalogManager → List ℕ → List ℕ → Result (CatalogManager × DbErr)
drop_index c table_name index_name = elim (find_name table_name c.table_names) [
  | none ↦ ok (c, db_table_not_exist)
  | some table_id ↦ elim (find_name table_name c.index_names) [
    | none ↦ err out_of_range
    | some names ↦ elim (find_name index_name names) [
      | none ↦ ok (c, db_index_not_found)
      | some index_id ↦ do
        let page_id : ℕ = page_or_zero (lookup index_id c.catalog_meta.index_meta_pages)
        (deleted, _) ← delete_page c.pool page_id
        ok (
          record c {
            pool = deleted;
            catalog_meta = record c.catalog_meta {
              index_meta_pages = erase index_id c.catalog_meta.index_meta_pages;
            };
            index_names = erase_name table_name c.index_names;
            indexes = erase index_id c.indexes;
          },
          db_success,
        )
    ]
  ]
]

-- CatalogMeta::DeleteIndexMetaPage: the pool, the record and the answer.
unfoldable pub delete_index_meta_page :
    BufferPool → CatalogMeta → ℕ → Result (BufferPool × CatalogMeta × Bool)
delete_index_meta_page p meta index_id = elim (lookup index_id meta.index_meta_pages) [
  | none ↦ ok (p, meta, false)
  | some page_id ↦ do
    (deleted, _) ← delete_page p page_id
    ok (deleted, record meta { index_meta_pages = erase index_id meta.index_meta_pages }, true)
]
