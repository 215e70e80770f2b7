-- ===== src/Catalog/Meta.antt =====
-- The class CatalogMeta of catalog/catalog.cpp and include/catalog/catalog.h: the page that says on
-- which pages the records of tables and indexes lie. A std::map is the list of its entries in the
-- order of its keys.
pub mod Format
use wslproject.Base.{
  ℕ, zero, suc, ◌+◌, ◌*◌, ◌%◌, ◌^◌, List, [], ◌∷◌, ◌++◌, Result, ok, ◌>>=◌, ◌>>◌, assert, ◌==◌, leb,
  ltb, if◌then◌else◌, length,
}
use wslproject.Base.Bytes.{write_u32, read_u32}

pub record CatalogMeta : Type 0 where
  pub table_meta_pages : List (ℕ × ℕ)
  pub index_meta_pages : List (ℕ × ℕ)

abbrev pub catalog_metadata_magic_num : ℕ
catalog_metadata_magic_num = 89849

-- std::map::emplace
unfoldable pub emplace : ℕ → ℕ → List (ℕ × ℕ) → List (ℕ × ℕ)
emplace id page [] = (id, page) ∷ []
emplace id page (entry ∷ rest) =
    let later = emplace id page rest in
    if ltb id entry.0
    then (id, page) ∷ entry ∷ rest
    else if id == entry.0
    then entry ∷ rest
    else entry ∷ later

-- GetSerializedSize, with `sizeof(unsigned long)` for the two counts
unfoldable pub catalog_meta_size : CatalogMeta → ℕ
catalog_meta_size meta =
    (4 + 2 * 8 + (4 + 4) * length meta.table_meta_pages + (4 + 4) * length meta.index_meta_pages)
    % 2 ^ 32

unfoldable pub write_entries : List (ℕ × ℕ) → List ℕ
write_entries [] = []
write_entries (entry ∷ rest) = write_u32 entry.0 ++ (write_u32 entry.1 ++ write_entries rest)

-- CatalogMeta::SerializeTo: the bytes written.
unfoldable pub serialize_catalog_meta : CatalogMeta → Result (List ℕ)
serialize_catalog_meta meta = do
  assert (leb (catalog_meta_size meta) 4096)
  ok (
      write_u32 catalog_metadata_magic_num
      ++ (write_u32 (length meta.table_meta_pages)
          ++ (write_u32 (length meta.index_meta_pages)
              ++ (write_entries meta.table_meta_pages ++ write_entries meta.index_meta_pages))))

-- The loops of DeserializeFrom, with the map so far and what the pointer points at afterwards.
unfoldable pub read_entries : ℕ → List ℕ → List (ℕ × ℕ) → Result (List (ℕ × ℕ) × List ℕ)
read_entries zero buf meta = ok (meta, buf)
read_entries (suc n) buf meta = do
  (id, after_id) ← read_u32 buf
  (page, rest) ← read_u32 after_id
  read_entries n rest (emplace id page meta)

-- CatalogMeta::DeserializeFrom
unfoldable pub deserialize_catalog_meta : List ℕ → Result CatalogMeta
deserialize_catalog_meta buf = do
  (magic_num, after_magic) ← read_u32 buf
  assert (magic_num == catalog_metadata_magic_num)
  (table_nums, after_tables) ← read_u32 after_magic
  (index_nums, after_indexes) ← read_u32 after_tables
  (tables, after_entries) ← read_entries table_nums after_indexes []
  (indexes, _) ← read_entries index_nums after_entries []
  ok (record { table_meta_pages = tables; index_meta_pages = indexes })
