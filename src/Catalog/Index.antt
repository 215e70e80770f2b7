-- ===== src/Catalog/Index.antt =====
-- IndexMetadata of catalog/indexes.cpp and include/catalog/indexes.h: the record of an index.
pub mod Format
use wslproject.Base.{
  ℕ, zero, suc, ◌+◌, ◌*◌, ◌%◌, ◌^◌, List, [], ◌∷◌, ◌++◌, Result, ok, ◌>>=◌, ◌>>◌, assert, ◌==◌, leb,
  length,
}
use wslproject.Base.Bytes.{write_u32, read_u32, read_bytes}

pub record IndexMetadata : Type 0 where
  pub index_id : ℕ
  pub index_name : List ℕ
  pub table_id : ℕ
  pub key_map : List ℕ

abbrev pub index_metadata_magic_num : ℕ
index_metadata_magic_num = 344528

-- IndexMetadata::Create
abbrev pub create_index_metadata : ℕ → List ℕ → ℕ → List ℕ → IndexMetadata
create_index_metadata index_id index_name table_id key_map = record {
  index_id = index_id;
  index_name = index_name;
  table_id = table_id;
  key_map = key_map;
}

-- GetSerializedSize
unfoldable pub index_metadata_size : IndexMetadata → ℕ
index_metadata_size meta =
    (4 + 4 + 4 + length meta.index_name + 4 + 4 + length meta.key_map * 4) % 2 ^ 32

unfoldable pub write_key_map : List ℕ → List ℕ
write_key_map [] = []
write_key_map (col_index ∷ rest) = write_u32 col_index ++ write_key_map rest

-- IndexMetadata::SerializeTo: the bytes written, and the size returned.
unfoldable pub serialize_index_metadata : IndexMetadata → Result (List ℕ × ℕ)
serialize_index_metadata meta = do
  assert (leb (index_metadata_size meta) 4096)
  assert (
      4 + 4 + 4 + length meta.index_name + 4 + 4 + 4 * length meta.key_map
      == index_metadata_size meta)
  ok (
    write_u32 index_metadata_magic_num
        ++ (write_u32 meta.index_id
            ++ (write_u32 (length meta.index_name)
                ++ (meta.index_name
                    ++ (write_u32 meta.table_id
                        ++ (write_u32 (length meta.key_map) ++ write_key_map meta.key_map))))),
    index_metadata_size meta,
  )

-- The loop of DeserializeFrom, with what the pointer points at afterwards.
unfoldable pub read_key_map : ℕ → List ℕ → Result (List ℕ × List ℕ)
read_key_map zero buf = ok ([], buf)
read_key_map (suc n) buf = do
  (key_index, after_key) ← read_u32 buf
  (key_map, rest) ← read_key_map n after_key
  ok (key_index ∷ key_map, rest)

-- IndexMetadata::DeserializeFrom: the record read, and the number of bytes that the pointer moved.
unfoldable pub deserialize_index_metadata : List ℕ → Result (IndexMetadata × ℕ)
deserialize_index_metadata buf = do
  (magic_num, after_magic) ← read_u32 buf
  assert (magic_num == index_metadata_magic_num)
  (index_id, after_id) ← read_u32 after_magic
  (len, after_len) ← read_u32 after_id
  (index_name, after_name) ← read_bytes len after_len
  (table_id, after_table) ← read_u32 after_name
  (index_key_count, after_count) ← read_u32 after_table
  (key_map, _) ← read_key_map index_key_count after_count
  ok (
    create_index_metadata index_id index_name table_id key_map,
    (4 + 4 + 4 + len + 4 + 4 + 4 * index_key_count) % 2 ^ 32,
  )
