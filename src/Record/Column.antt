-- ===== src/Record/Column.antt =====
-- record/column.cpp and include/record/column.h: a column of a table, and its storage format.
pub mod Format
use wslproject.Base.{
  ℕ, ◌+◌, ◌%◌, ◌*◌, ◌^◌, Bool, true, false, not, List, [], ◌∷◌, ◌++◌, Option, none, some, Result,
  ok, err, assertion, ◌>>=◌, ◌>>◌, assert, ◌==◌, length,
}
use wslproject.Base.Bytes.{write_u32, read_u32, write_bool, read_bool, read_bytes}
use wslproject.Record.Types.{
  TypeId, type_invalid, type_int, type_float, type_char, type_code, type_eq,
}

pub record Column : Type 0 where
  pub name : List ℕ
  pub type_id : TypeId
  pub len : ℕ
  pub table_ind : ℕ
  pub nullable : Bool
  pub unique : Bool

abbrev pub column_magic_num : ℕ
column_magic_num = 210928

-- The `switch` on the type in the constructor of columns that are no texts.
unfoldable pub fixed_len : TypeId → Result ℕ
fixed_len type_int = ok 4
fixed_len type_float = ok 4
fixed_len _ = err assertion

-- Column(name, type, index, nullable, unique)
unfoldable pub new_column : List ℕ → TypeId → ℕ → Bool → Bool → Result Column
unfolding fixed_len
new_column column_name t index is_nullable is_unique = do
  assert (not (type_eq t type_char))
  size ← fixed_len t
  ok (record {
    name = column_name;
    type_id = t;
    len = size;
    table_ind = index;
    nullable = is_nullable;
    unique = is_unique;
  })

-- Column(name, type, length, index, nullable, unique)
unfoldable pub new_char_column : List ℕ → TypeId → ℕ → ℕ → Bool → Bool → Result Column
new_char_column column_name t max_len index is_nullable is_unique = do
  assert (type_eq t type_char)
  ok (record {
    name = column_name;
    type_id = t;
    len = max_len;
    table_ind = index;
    nullable = is_nullable;
    unique = is_unique;
  })

-- Column(other)
unfoldable pub copy_column : Column → Column
copy_column other = record {
  name = other.name;
  type_id = other.type_id;
  len = other.len;
  table_ind = other.table_ind;
  nullable = other.nullable;
  unique = other.unique;
}

-- Column::SerializeTo: the bytes written, and the size returned.
unfoldable pub serialize_column : Column → List ℕ × ℕ
serialize_column c =
    let str_size = length c.name % 2 ^ 32 in
    (
      write_u32 column_magic_num
          ++ (write_u32 str_size
              ++ (c.name
                  ++ (write_u32 (type_code c.type_id)
                      ++ (write_u32 c.len
                          ++ (write_u32 c.table_ind
                              ++ (write_bool c.nullable ++ write_bool c.unique)))))),
      (4 + 4 + str_size + 4 + 4 + 4 + 1 + 1) % 2 ^ 32,
    )

-- Column::GetSerializedSize
unfoldable pub column_serialized_size : Column → ℕ
column_serialized_size c = (4 * 4 + length c.name + 4 + 2 * 1) % 2 ^ 32

-- The type that a stored enumerator stands for; the `switch` treats all others alike.
unfoldable pub type_of_code : ℕ → TypeId
type_of_code n = elim (n == 1) [
  | true ↦ type_int
  | false ↦ elim (n == 2) [
    | true ↦ type_float
    | false ↦ elim (n == 3) [ true ↦ type_char | false ↦ type_invalid ]
  ]
]

-- The `switch` of Column::DeserializeFrom; `none` is the null pointer.
unfoldable pub construct_column : TypeId → List ℕ → ℕ → ℕ → Bool → Bool → Result (Option Column)
unfolding new_column new_char_column
construct_column type_char column_name size ind is_nullable is_unique = do
  c ← new_char_column column_name type_char size ind is_nullable is_unique
  ok (some c)
construct_column type_int column_name size ind is_nullable is_unique = do
  c ← new_column column_name type_int ind is_nullable is_unique
  ok (some c)
construct_column type_float column_name size ind is_nullable is_unique = do
  c ← new_column column_name type_float ind is_nullable is_unique
  ok (some c)
construct_column type_invalid column_name size ind is_nullable is_unique = ok none

-- Column::DeserializeFrom: the column, and the size returned.
unfoldable pub deserialize_column : List ℕ → Result (Option Column × ℕ)
unfolding type_of_code construct_column
deserialize_column buf = do
  (check, after_magic) ← read_u32 buf
  assert (check == column_magic_num)
  (str_size, after_size) ← read_u32 after_magic
  (column_name, after_name) ← read_bytes str_size after_size
  (code, after_type) ← read_u32 after_name
  (size, after_len) ← read_u32 after_type
  (tb_ind, after_ind) ← read_u32 after_len
  (is_nullable, after_nullable) ← read_bool after_ind
  (is_unique, _) ← read_bool after_nullable
  column ← construct_column (type_of_code code) column_name size tb_ind is_nullable is_unique
  ok (column, (4 + 4 + str_size + 4 + 4 + 4 + 1 + 1) % 2 ^ 32)
