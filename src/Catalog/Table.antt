-- ===== src/Catalog/Table.antt =====
-- TableMetadata of catalog/table.cpp and include/catalog/table.h: the record of a table.
pub mod Format
use wslproject.Base.{
  ℕ, ◌+◌, ◌*◌, ◌%◌, ◌^◌, List, [], ◌∷◌, ◌++◌, Result, ok, ◌>>=◌, ◌>>◌, assert, ◌==◌, leb, length,
}
use wslproject.Base.Bytes.{write_u32, read_u32, read_bytes}
use wslproject.Record.Schema.{Schema, serialize_schema, schema_serialized_size, deserialize_schema}

pub record TableMetadata : Type 0 where
  pub table_id : ℕ
  pub table_name : List ℕ
  pub root_page_id : ℕ
  pub schema : Schema

abbrev pub table_metadata_magic_num : ℕ
table_metadata_magic_num = 344528

-- TableMetadata::Create
abbrev pub create_table_metadata : ℕ → List ℕ → ℕ → Schema → TableMetadata
create_table_metadata table_id table_name root_page_id schema = record {
  table_id = table_id;
  table_name = table_name;
  root_page_id = root_page_id;
  schema = schema;
}

-- GetSerializedSize
unfoldable pub table_metadata_size : TableMetadata → Result ℕ
table_metadata_size meta = do
  n ← schema_serialized_size meta.schema
  ok ((2 * 4 + 4 + length meta.table_name + 4 + n) % 2 ^ 32)

-- TableMetadata::SerializeTo: the bytes written, and the size returned.
unfoldable pub serialize_table_metadata : TableMetadata → Result (List ℕ × ℕ)
serialize_table_metadata meta = do
  ofs ← table_metadata_size meta
  assert (leb ofs 4096)
  (own, n) ← serialize_schema meta.schema
  assert (4 + 4 + 4 + length meta.table_name + 4 + n == ofs)
  ok (
    write_u32 table_metadata_magic_num
        ++ (write_u32 meta.table_id
            ++ (write_u32 (length meta.table_name)
                ++ (meta.table_name ++ (write_u32 meta.root_page_id ++ own)))),
    ofs,
  )

-- TableMetadata::DeserializeFrom: the record read, and the number of bytes that the pointer moved.
unfoldable pub deserialize_table_metadata : List ℕ → Result (TableMetadata × ℕ)
deserialize_table_metadata buf = do
  (magic_num, after_magic) ← read_u32 buf
  assert (magic_num == table_metadata_magic_num)
  (table_id, after_id) ← read_u32 after_magic
  (len, after_len) ← read_u32 after_id
  (table_name, after_name) ← read_bytes len after_len
  (root_page_id, after_root) ← read_u32 after_name
  (schema, n) ← deserialize_schema after_root
  ok (
    create_table_metadata table_id table_name root_page_id schema,
    (4 + 4 + 4 + len + 4 + n) % 2 ^ 32,
  )
