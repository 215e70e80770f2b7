-- ===== src/Record/Column/Format.antt =====
-- The storage format of columns (record/column.cpp).
use wslproject.Base.{
  ℕ, ◌%◌, ◌^◌, ◌<◌, ◌≡◌, ◌≢◌, refl, ap, Bool, List, ◌++◌, some, ok, length, length-append, arith,
  ◌⊎◌,
}
use wslproject.Base.Bytes.{
  IsU32, read_u32-write_u32, length-write_u32, length-write_bool, read_bool-write_bool,
  read_bytes-append,
}
use wslproject.Record.Types.{TypeId, type_invalid, type_int, type_float, type_char, type_code}
use wslproject.Record.Column.{
  Column, serialize_column, column_serialized_size, deserialize_column, construct_column,
  type_of_code, new_column, new_char_column, column_magic_num,
}
use mathlib.Core.List.{append_assoc}

-- What the constructors build, with numbers and a name that fit uint32_t.
pub record IsBuilt (c : Column) : Type 0 where
  pub named : length c.name < 2 ^ 31
  pub placed : IsU32 c.table_ind
  pub sized : IsU32 c.len
  pub typed : c.type_id ≢ type_invalid
  pub fixed : c.type_id ≢ type_char → c.len ≡ 4

type_of_code_lem : (t : TypeId) → type_of_code (type_code t) ≡ t
unfolding type_of_code
type_of_code_lem type_invalid = refl
type_of_code_lem type_int = refl
type_of_code_lem type_float = refl
type_of_code_lem type_char = refl

type_code-lt : (t : TypeId) → IsU32 (type_code t)
type_code-lt type_invalid = omega arith
type_code-lt _ = omega arith

construct_as :
    (t : TypeId) (c : Column)
    → c.type_id ≡ t
    → t ≢ type_invalid
    → (t ≢ type_char → c.len ≡ 4)
    → construct_column t c.name c.len c.table_ind c.nullable c.unique ≡ ok (some c)
unfolding construct_column
construct_as type_invalid c e h f = absurd (h refl)
construct_as type_int c e h f = let four = f (λ x. cc) in ground arith
construct_as type_float c e h f = let four = f (λ x. cc) in ground arith
construct_as type_char c e h f = ground arith

-- The columns that the constructors build are of the form that is stored.
pub construct_column-IsBuilt :
    (t : TypeId) (column_name : List ℕ) (size index : ℕ) (is_nullable is_unique : Bool) {c : Column}
    → length column_name < 2 ^ 31
    → IsU32 size
    → IsU32 index
    → (new_column column_name t index is_nullable is_unique ≡ ok c)
      ⊎ (new_char_column column_name t size index is_nullable is_unique ≡ ok c)
    → IsBuilt c
unfolding new_column new_char_column
construct_column-IsBuilt type_invalid column_name size index is_nullable is_unique hn hs hi e =
    ground arith
construct_column-IsBuilt _ column_name size index is_nullable is_unique hn hs hi e = ground arith

-- A column that the constructors build is written in as many bytes as GetSerializedSize says and
-- SerializeTo returns, and DeserializeFrom reads the same column back from them, whatever lies behind.
pub deserialize_column-serialize_column :
    (c : Column) (rest : List ℕ)
    → IsBuilt c
    → ((serialize_column c).1 ≡ column_serialized_size c)
      × (length (serialize_column c).0 ≡ column_serialized_size c)
      × (deserialize_column ((serialize_column c).0 ++ rest)
          ≡ ok (some c, column_serialized_size c))
unfolding serialize_column column_serialized_size deserialize_column
deserialize_column-serialize_column c rest v =
    let small : length c.name % 2 ^ 32 ≡ length c.name = omega arith in
    (
      omega arith,
      simp (length-append, length-write_u32, length-write_bool) (omega arith),
      simp append_assoc (
          rw
            (
              small,
              read_u32-write_u32 column_magic_num _ (omega arith),
              read_u32-write_u32 (length c.name) _ (omega arith),
              read_bytes-append,
              read_u32-write_u32 (type_code c.type_id) _ (type_code-lt c.type_id),
              read_u32-write_u32 c.len _ v.sized,
              read_u32-write_u32 c.table_ind _ v.placed,
              read_bool-write_bool,
              read_bool-write_bool,
              type_of_code_lem c.type_id,
              construct_as c.type_id c refl v.typed v.fixed,
            )
            (ap (λ (n : ℕ). ok (some c, n)) (omega arith))),
    )
