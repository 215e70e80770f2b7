-- ===== src/Record/Schema/Format.antt =====
-- The storage format of schemas (record/schema.cpp).
use wslproject.Base.{
  ℕ, suc, ◌+◌, ◌%◌, ◌^◌, ◌<◌, ◌≡◌, refl, sym, ap, ◌∙◌, Bool, List, [], ◌∷◌, ◌++◌, Option, some, ok,
  length, length-append, arith, All, drop-append,
}
use wslproject.Base.Bytes.{
  write_u32, write_bool, read_u32-write_u32, length-write_u32, length-write_bool,
  read_bool-write_bool,
}
use wslproject.Record.Column.{Column, serialize_column, deserialize_column}
use wslproject.Record.Column.Format.{IsBuilt, deserialize_column-serialize_column}
use wslproject.Record.Schema.{
  schema_magic_num, serialize_columns, serialize_schema, columns_size, schema_serialized_size,
  deserialize_columns, deserialize_schema,
}
use mathlib.Core.List.{append_assoc}

-- The columns' bytes, one column behind the other.
unfoldable pub columns_bytes : List Column → List ℕ
columns_bytes [] = []
columns_bytes (c ∷ cs) = (serialize_column c).0 ++ columns_bytes cs

abbrev pub pointers : List Column → List (Option Column)
pointers [] = []
pointers (c ∷ cs) = some c ∷ pointers cs

length-pointers : (cs : List Column) → length (pointers cs) ≡ length cs
length-pointers [] = refl
length-pointers (c ∷ cs) = ap suc (length-pointers cs)

serialize_columns_lem :
    (cs : List Column)
    → All IsBuilt cs
    → serialize_columns (pointers cs) ≡ ok (columns_bytes cs, length (columns_bytes cs))
unfolding serialize_columns columns_bytes
serialize_columns_lem [] h = refl
serialize_columns_lem (c ∷ cs) h =
    let own = deserialize_column-serialize_column c [] h.0 in
    rw (serialize_columns_lem cs h.1, length-append, own.0, own.1)

columns_size_lem :
    (cs : List Column)
    → All IsBuilt cs
    → columns_size (pointers cs) ≡ ok (length (columns_bytes cs))
unfolding columns_size columns_bytes
columns_size_lem [] h = refl
columns_size_lem (c ∷ cs) h =
    let own = deserialize_column-serialize_column c [] h.0 in
    rw (columns_size_lem cs h.1, length-append, own.1)

deserialize_columns_lem :
    (cs : List Column) (rest : List ℕ)
    → All IsBuilt cs
    → deserialize_columns (length cs) (columns_bytes cs ++ rest)
      ≡ ok (pointers cs, length (columns_bytes cs))
unfolding deserialize_columns columns_bytes
deserialize_columns_lem [] rest h = refl
deserialize_columns_lem (c ∷ cs) rest h =
    let own : List ℕ = (serialize_column c).0 in
    let more : List ℕ = columns_bytes cs in
    let read : deserialize_column (own ++ (more ++ rest)) ≡ ok (some c, length own) =
      (let t = deserialize_column-serialize_column c (more ++ rest) h.0 in
        t.2 ∙ ap (λ (n : ℕ). ok (some c, n)) (sym t.1)) in
    rw (
      append_assoc own more rest,
      read,
      drop-append own (more ++ rest),
      deserialize_columns_lem cs rest h.1,
      length-append own more,
    )

-- A schema of columns that the constructors build is written in as many bytes as GetSerializedSize
-- says and SerializeTo returns, and DeserializeFrom reads the same schema back, whatever lies behind.
pub deserialize_schema-serialize_schema :
    (cs : List Column) (manage : Bool) (rest : List ℕ)
    → All IsBuilt cs
    → length cs < 2 ^ 32
    → length (columns_bytes cs) < 2 ^ 31
    → (bytes : List ℕ) × (serialize_schema (record { columns = pointers cs; is_manage = manage })
        ≡ ok (bytes, length bytes))
      × (schema_serialized_size (record { columns = pointers cs; is_manage = manage })
          ≡ ok (length bytes))
      × (deserialize_schema (bytes ++ rest)
          ≡ ok (record { columns = pointers cs; is_manage = manage }, length bytes))
unfolding serialize_schema schema_serialized_size deserialize_schema
deserialize_schema-serialize_schema cs manage rest h hn hb =
    let body : List ℕ = columns_bytes cs in
    let bytes : List ℕ =
      write_u32 schema_magic_num ++ (write_u32 (length cs) ++ (body ++ write_bool manage)) in
    let long : length bytes ≡ length body + 9 =
      simp (length-append, length-write_u32, length-write_bool) (omega arith) in
    let total : (4 + 4 + length body + 1) % 2 ^ 32 ≡ length bytes = omega arith in
    (
      bytes,
      rw (serialize_columns_lem cs h, length-pointers cs, total),
      rw (columns_size_lem cs h, total),
      simp append_assoc (
          rw (
            read_u32-write_u32 schema_magic_num _ (omega arith),
            read_u32-write_u32 (length cs) _ hn,
            deserialize_columns_lem cs _ h,
            drop-append,
            read_bool-write_bool,
            total,
          )),
    )

-- The size of a schema: that of its columns, and nine bytes around them.
pub schema_serialized_size-columns_bytes :
    (cs : List Column) (manage : Bool)
    → All IsBuilt cs
    → length (columns_bytes cs) < 2 ^ 31
    → schema_serialized_size (record { columns = pointers cs; is_manage = manage })
      ≡ ok (length (columns_bytes cs) + 9)
unfolding schema_serialized_size
schema_serialized_size-columns_bytes cs manage h hb =
    rw (columns_size_lem cs h) (ap (λ (n : ℕ). ok n) total)
  where
    total : (4 + 4 + length (columns_bytes cs) + 1) % 2 ^ 32 ≡ length (columns_bytes cs) + 9
    total = omega arith
