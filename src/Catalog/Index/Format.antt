-- ===== src/Catalog/Index/Format.antt =====
-- The storage format of IndexMetadata (catalog/indexes.cpp).
use wslproject.Base.{
  ℕ, ◌+◌, ◌*◌, ◌%◌, ◌^◌, ◌≤◌, ◌≡◌, refl, List, [], ◌∷◌, ◌++◌, ok, le→leb, ==_iff, length,
  length-append, arith, All,
}
use wslproject.Base.Bytes.{
  IsU32, write_u32, read_u32-write_u32, length-write_u32, read_bytes-append,
}
use wslproject.Catalog.Index.{
  IndexMetadata, index_metadata_magic_num, index_metadata_size, write_key_map,
  serialize_index_metadata, read_key_map, deserialize_index_metadata,
}
use mathlib.Core.List.{append_assoc}

read_key_map-write_key_map :
    (l rest : List ℕ)
    → All IsU32 l
    → read_key_map (length l) (write_key_map l ++ rest) ≡ ok (l, rest)
unfolding read_key_map write_key_map
read_key_map-write_key_map [] rest v = refl
read_key_map-write_key_map (x ∷ l) rest v =
    simp append_assoc (rw (read_u32-write_u32 x _ v.0, read_key_map-write_key_map l rest v.1) refl)

length-write_key_map : (l : List ℕ) → length (write_key_map l) ≡ 4 * length l
unfolding write_key_map
length-write_key_map [] = refl
length-write_key_map (x ∷ l) = omega (
  arith,
  length-append (write_u32 x) (write_key_map l),
  length-write_u32 x,
  length-write_key_map l,
)

-- The numbers of a record are of 32 bits, and it fits a page.
pub record FitsPage (meta : IndexMetadata) : Type 0 where
  pub id_u32 : IsU32 meta.index_id
  pub table_u32 : IsU32 meta.table_id
  pub keys_u32 : All IsU32 meta.key_map
  pub short : 20 + length meta.index_name + 4 * length meta.key_map ≤ 4096

-- The record of an index that fits a page is written in as many bytes as GetSerializedSize says and
-- SerializeTo returns, and DeserializeFrom reads the same record back, whatever lies behind.
pub deserialize_index_metadata-serialize :
    (meta : IndexMetadata) (rest : List ℕ)
    → FitsPage meta
    → (bytes : List ℕ) × (serialize_index_metadata meta ≡ ok (bytes, length bytes))
      × (index_metadata_size meta ≡ length bytes)
      × (deserialize_index_metadata (bytes ++ rest) ≡ ok (meta, length bytes))
unfolding serialize_index_metadata deserialize_index_metadata
deserialize_index_metadata-serialize meta rest v =
    let name : List ℕ = meta.index_name in
    let keys : List ℕ = meta.key_map in
    let bytes : List ℕ =
      write_u32 index_metadata_magic_num
      ++ (write_u32 meta.index_id
          ++ (write_u32 (length name)
              ++ (name
                  ++ (write_u32 meta.table_id
                      ++ (write_u32 (length keys) ++ write_key_map keys))))) in
    let long : length bytes ≡ 20 + length name + 4 * length keys =
      simp (length-append, length-write_u32, length-write_key_map) (omega arith) in
    let total : index_metadata_size meta ≡ length bytes =
      size (length bytes) (omega (arith, v.short)) long in
    let exact : 4 + 4 + 4 + length name + 4 + 4 + 4 * length keys ≡ length bytes = omega arith in
    let read_total : (4 + 4 + 4 + length name + 4 + 4 + 4 * length keys) % 2 ^ 32 ≡ length bytes =
      omega (arith, v.short) in
    (
      bytes,
      rw
          (
            total,
            le→leb (length bytes) 4096 (omega (arith, v.short)),
            (==_iff _ (length bytes)).1 exact,
          )
          refl,
      total,
      simp append_assoc (
          rw
            (
              read_u32-write_u32 index_metadata_magic_num _ (omega arith),
              read_u32-write_u32 meta.index_id _ v.id_u32,
              read_u32-write_u32 (length name) _ (omega (arith, v.short)),
              read_bytes-append,
              read_u32-write_u32 meta.table_id _ v.table_u32,
              read_u32-write_u32 (length keys) _ (omega (arith, v.short)),
              read_key_map-write_key_map keys rest v.keys_u32,
              read_total,
            )
            refl),
    )
  where
    size :
        (n : ℕ)
        → n ≤ 4096
        → n ≡ 20 + length meta.index_name + 4 * length meta.key_map
        → index_metadata_size meta ≡ n
    size n small long = unfold index_metadata_size in omega arith
