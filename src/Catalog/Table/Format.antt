-- ===== src/Catalog/Table/Format.antt =====
-- The storage format of TableMetadata (catalog/table.cpp).
use wslproject.Base.{
  ℕ, ◌+◌, ◌*◌, ◌%◌, ◌^◌, ◌<◌, ◌≤◌, ◌≡◌, refl, sym, ap, ◌∙◌, Bool, List, ◌++◌, ok, le→leb, ==_refl,
  length, length-append, arith, All,
}
use wslproject.Base.Bytes.{
  IsU32, write_u32, read_u32-write_u32, length-write_u32, read_bytes-append,
}
use wslproject.Record.Column.{Column}
use wslproject.Record.Column.Format.{IsBuilt}
use wslproject.Record.Schema.{schema_serialized_size}
use wslproject.Record.Schema.Format.{
  pointers, columns_bytes, deserialize_schema-serialize_schema,
  schema_serialized_size-columns_bytes,
}
use wslproject.Catalog.Table.{
  TableMetadata, table_metadata_magic_num, table_metadata_size, serialize_table_metadata,
  deserialize_table_metadata,
}
use mathlib.Core.List.{append_assoc}

ok_injective : {a b : ℕ} → ok a ≡ ok b → a ≡ b
ok_injective h = ground arith

-- The record of a table that fits a page: of a schema of columns that the constructors build.
pub record FitsPage (id root : ℕ) (name : List ℕ) (cs : List Column) : Type 0 where
  pub id_u32 : IsU32 id
  pub root_u32 : IsU32 root
  pub built : All IsBuilt cs
  pub few : length cs < 2 ^ 32
  pub short : length name + length (columns_bytes cs) ≤ 4071

abbrev pub table_of : ℕ → ℕ → List ℕ → List Column → Bool → TableMetadata
table_of id root name cs manage = record {
  table_id = id;
  table_name = name;
  root_page_id = root;
  schema = record { columns = pointers cs; is_manage = manage };
}

-- The record of a table that fits a page is written in as many bytes as GetSerializedSize says and
-- SerializeTo returns, and DeserializeFrom reads the same record back, whatever lies behind.
pub deserialize_table_metadata-serialize :
    (id root : ℕ) (name : List ℕ) (cs : List Column) (manage : Bool) (rest : List ℕ)
    → FitsPage id root name cs
    → (bytes : List ℕ) × (serialize_table_metadata (table_of id root name cs manage)
        ≡ ok (bytes, length bytes))
      × (table_metadata_size (table_of id root name cs manage) ≡ ok (length bytes))
      × (length bytes ≤ 4096)
      × (deserialize_table_metadata (bytes ++ rest)
          ≡ ok (table_of id root name cs manage, length bytes))
unfolding serialize_table_metadata table_metadata_size deserialize_table_metadata
deserialize_table_metadata-serialize id root name cs manage rest v =
    let (own, written, sized, read) =
      deserialize_schema-serialize_schema cs manage rest v.built v.few (omega (arith, v.short)) in
    let bytes : List ℕ =
      write_u32 table_metadata_magic_num
      ++ (write_u32 id ++ (write_u32 (length name) ++ (name ++ (write_u32 root ++ own)))) in
    let long : length bytes ≡ 16 + length name + length own =
      simp (length-append, length-write_u32) (omega arith) in
    let total : (2 * 4 + 4 + length name + 4 + length own) % 2 ^ 32 ≡ length bytes =
      omega (arith, v.short, fits own sized) in
    let read_total : (4 + 4 + 4 + length name + 4 + length own) % 2 ^ 32 ≡ length bytes =
      omega (arith, total) in
    let exact : 4 + 4 + 4 + length name + 4 + length own ≡ length bytes = omega arith in
    let room : length bytes ≤ 4096 = omega (arith, v.short, fits own sized) in
    (
      bytes,
      rw
          (
            size_is own sized ∙ ap (λ (n : ℕ). ok n) total,
            le→leb (length bytes) 4096 room,
            written,
            exact,
            ==_refl (length bytes),
          )
          refl,
      size_is own sized ∙ ap (λ (n : ℕ). ok n) total,
      room,
      simp append_assoc (
          rw
            (
              read_u32-write_u32 table_metadata_magic_num _ (omega arith),
              read_u32-write_u32 id _ v.id_u32,
              read_u32-write_u32 (length name) _ (omega (arith, v.short)),
              read_bytes-append,
              read_u32-write_u32 root _ v.root_u32,
              read,
              read_total,
            )
            refl),
    )
  where
    fits :
        (own : List ℕ)
        → schema_serialized_size (record { columns = pointers cs; is_manage = manage })
          ≡ ok (length own)
        → length own ≡ length (columns_bytes cs) + 9
    fits own sized = ok_injective (
        sym sized ∙ schema_serialized_size-columns_bytes cs manage v.built (omega (arith, v.short)))

    size_is :
        (own : List ℕ)
        → schema_serialized_size (record { columns = pointers cs; is_manage = manage })
          ≡ ok (length own)
        → table_metadata_size (table_of id root name cs manage)
          ≡ ok ((2 * 4 + 4 + length name + 4 + length own) % 2 ^ 32)
    size_is own sized = rw sized refl
