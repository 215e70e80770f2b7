-- ===== src/Tests/Catalog.antt =====
-- Small records of the catalog (catalog/).
use wslproject.Base.{ℕ, ◌+◌, ◌≤◌, ◌≡◌, refl, true, false, List, [], ◌∷◌, ◌++◌, length, ok, arith}
use wslproject.Base.Bytes.{write_u32, write_bool}
use wslproject.Record.Types.{type_int}
use wslproject.Record.Column.{Column, serialize_column}
use wslproject.Record.Column.Format.{IsBuilt}
use wslproject.Record.Schema.Format.{columns_bytes}
use wslproject.Catalog.Meta.{
  CatalogMeta, catalog_meta_size, serialize_catalog_meta, deserialize_catalog_meta,
}
use wslproject.Catalog.Meta.Format.{deserialize_catalog_meta-serialize}
use wslproject.Catalog.Table.{
  serialize_table_metadata, table_metadata_size, deserialize_table_metadata,
}
use wslproject.Catalog.Table.Format as TableFormat
use wslproject.Catalog.Table.Format.{table_of, deserialize_table_metadata-serialize}
use wslproject.Catalog.Index.{
  IndexMetadata, serialize_index_metadata, index_metadata_size, deserialize_index_metadata,
}
use wslproject.Catalog.Index.Format as IndexFormat
use wslproject.Catalog.Index.Format.{deserialize_index_metadata-serialize}

abbrev two_tables : CatalogMeta
two_tables = record { table_meta_pages = (0, 2) ∷ (1, 5) ∷ []; index_meta_pages = (0, 3) ∷ [] }

deserialize_catalog_meta-serialize_example :
    (bytes : List ℕ) × (serialize_catalog_meta two_tables ≡ ok bytes)
    × (length bytes + 8 ≡ catalog_meta_size two_tables)
    × (deserialize_catalog_meta (bytes ++ (1 ∷ [])) ≡ ok two_tables)
deserialize_catalog_meta-serialize_example =
    deserialize_catalog_meta-serialize two_tables (1 ∷ []) ((omega arith, tt), (tt, tt)) (tt, tt)
      ((omega arith, omega arith), ((omega arith, omega arith), tt))
      ((omega arith, omega arith), tt) (omega arith)

abbrev key_column : Column
key_column = record {
  name = 107 ∷ [];
  type_id = type_int;
  len = 4;
  table_ind = 0;
  nullable = false;
  unique = true;
}

key_column-IsBuilt : IsBuilt key_column
key_column-IsBuilt = record {
  named = omega arith;
  placed = omega arith;
  sized = omega arith;
  typed = λ h. cc;
  fixed = λ h. refl;
}

small_table-FitsPage : TableFormat.FitsPage 7 4 (116 ∷ []) (key_column ∷ [])
unfolding columns_bytes serialize_column write_u32 write_bool
small_table-FitsPage = record {
  id_u32 = omega arith;
  root_u32 = omega arith;
  built = (key_column-IsBuilt, tt);
  few = omega arith;
  short = omega arith;
}

deserialize_table_metadata-serialize_example :
    (bytes : List ℕ) × (serialize_table_metadata (table_of 7 4 (116 ∷ []) (key_column ∷ []) true)
      ≡ ok (bytes, length bytes))
    × (table_metadata_size (table_of 7 4 (116 ∷ []) (key_column ∷ []) true) ≡ ok (length bytes))
    × (length bytes ≤ 4096)
    × (deserialize_table_metadata (bytes ++ [])
        ≡ ok (table_of 7 4 (116 ∷ []) (key_column ∷ []) true, length bytes))
deserialize_table_metadata-serialize_example =
    deserialize_table_metadata-serialize 7 4 (116 ∷ []) (key_column ∷ []) true []
      small_table-FitsPage

abbrev small_index : IndexMetadata
small_index = record {
  index_id = 1;
  index_name = 105 ∷ 120 ∷ [];
  table_id = 7;
  key_map = 0 ∷ 2 ∷ [];
}

small_index-FitsPage : IndexFormat.FitsPage small_index
small_index-FitsPage = record {
  id_u32 = omega arith;
  table_u32 = omega arith;
  keys_u32 = (omega arith, (omega arith, tt));
  short = omega arith;
}

deserialize_index_metadata-serialize_example :
    (bytes : List ℕ) × (serialize_index_metadata small_index ≡ ok (bytes, length bytes))
    × (index_metadata_size small_index ≡ length bytes)
    × (deserialize_index_metadata (bytes ++ (9 ∷ [])) ≡ ok (small_index, length bytes))
deserialize_index_metadata-serialize_example =
    deserialize_index_metadata-serialize small_index (9 ∷ []) small_index-FitsPage
