-- ===== src/Record/Schema.antt =====
-- record/schema.cpp and include/record/schema.h: the columns of a table or an index, and their
-- storage format. A schema holds pointers to columns; `none` is a null pointer. Which schema owns
-- its columns is the flag `is_manage`; freeing them is not modelled.
pub mod Format
use wslproject.Base.{
  ℕ, zero, suc, ◌+◌, ◌%◌, ◌*◌, ◌^◌, Bool, true, false, List, [], ◌∷◌, ◌++◌, Option, none, some,
  Result, ok, err, null_pointer, ◌>>=◌, ◌>>◌, assert, ltb, ◌==◌, if◌then◌else◌, length, get_elem?,
  drop, out_of_bounds, ◌&&◌,
}
use wslproject.Base.Bytes.{write_u32, read_u32, write_bool, read_bool}
use wslproject.Record.Column.{
  Column, serialize_column, column_serialized_size, deserialize_column, copy_column,
}

pub record Schema : Type 0 where
  pub columns : List (Option Column)
  pub is_manage : Bool

abbrev pub schema_magic_num : ℕ
schema_magic_num = 200715

-- A pointer that is followed.
abbrev pub deref {ℓ} : {A : Type ℓ} → Option A → Result A
deref none = err null_pointer
deref (some a) = ok a

-- GetColumn(i)->…
unfoldable pub get_column : Schema → ℕ → Result Column
get_column s i = elim (get_elem? s.columns i) [ none ↦ err out_of_bounds | some c ↦ deref c ]

-- std::string's `==`
unfoldable pub name_eq : List ℕ → List ℕ → Bool
name_eq [] [] = true
name_eq (x ∷ a) (y ∷ b) = x == y && name_eq a b
name_eq [] (y ∷ b) = false
name_eq (x ∷ a) [] = false

-- GetColumnIndex: `none` is DB_COLUMN_NAME_NOT_EXIST. The loop is at column `i`.
unfoldable pub column_index_from : ℕ → List (Option Column) → List ℕ → Result (Option ℕ)
unfolding name_eq
column_index_from i [] col_name = ok none
column_index_from i (none ∷ cs) col_name = err null_pointer
column_index_from i (some c ∷ cs) col_name =
    let rest = column_index_from (i + 1) cs col_name in
    if name_eq c.name col_name then ok (some i) else rest

abbrev pub get_column_index : Schema → List ℕ → Result (Option ℕ)
get_column_index s col_name = column_index_from 0 s.columns col_name

-- ShallowCopySchema: the columns at the indices `attrs`, shared.
unfoldable pub select_columns : List (Option Column) → List ℕ → Result (List (Option Column))
select_columns cs [] = ok []
select_columns cs (i ∷ attrs) = do
  rest ← select_columns cs attrs
  elim (get_elem? cs i) [ none ↦ err out_of_bounds | some c ↦ ok (c ∷ rest) ]

unfoldable pub shallow_copy_schema : Schema → List ℕ → Result Schema
unfolding select_columns
shallow_copy_schema table_schema attrs = do
  cols ← select_columns table_schema.columns attrs
  ok (record { columns = cols; is_manage = false })

-- DeepCopySchema: a copy of every column.
unfoldable pub copy_columns : List (Option Column) → Result (List (Option Column))
unfolding copy_column
copy_columns [] = ok []
copy_columns (c ∷ cs) = do c' ← deref c; rest ← copy_columns cs; ok (some (copy_column c') ∷ rest)

unfoldable pub deep_copy_schema : Schema → Result Schema
unfolding copy_columns
deep_copy_schema from = do
  cols ← copy_columns from.columns
  ok (record { columns = cols; is_manage = true })

-- The loop over the columns in SerializeTo: the bytes written and what is added to `ofs`.
unfoldable pub serialize_columns : List (Option Column) → Result (List ℕ × ℕ)
serialize_columns [] = ok ([], 0)
serialize_columns (none ∷ cs) = err null_pointer
serialize_columns (some c ∷ cs) = do
  (bytes, n) ← serialize_columns cs
  ok ((serialize_column c).0 ++ bytes, (serialize_column c).1 + n)

-- Schema::SerializeTo
unfoldable pub serialize_schema : Schema → Result (List ℕ × ℕ)
unfolding serialize_columns
serialize_schema s = do
  (bytes, n) ← serialize_columns s.columns
  ok (
    write_u32 schema_magic_num
        ++ (write_u32 (length s.columns) ++ (bytes ++ write_bool s.is_manage)),
    (4 + 4 + n + 1) % 2 ^ 32,
  )

unfoldable pub columns_size : List (Option Column) → Result ℕ
columns_size [] = ok 0
columns_size (none ∷ cs) = err null_pointer
columns_size (some c ∷ cs) = do n ← columns_size cs; ok (column_serialized_size c + n)

-- Schema::GetSerializedSize
unfoldable pub schema_serialized_size : Schema → Result ℕ
unfolding columns_size
schema_serialized_size s = do n ← columns_size s.columns; ok ((2 * 4 + n + 1) % 2 ^ 32)

-- The loop over `columnsNum` columns in DeserializeFrom, with what is added to `ofs`.
unfoldable pub deserialize_columns : ℕ → List ℕ → Result (List (Option Column) × ℕ)
deserialize_columns zero buf = ok ([], 0)
deserialize_columns (suc k) buf = do
  (c, n) ← deserialize_column buf
  (cs, m) ← deserialize_columns k (drop n buf)
  ok (c ∷ cs, n + m)

-- Schema::DeserializeFrom
unfoldable pub deserialize_schema : List ℕ → Result (Schema × ℕ)
unfolding deserialize_columns
deserialize_schema buf = do
  (check, after_magic) ← read_u32 buf
  assert (check == schema_magic_num)
  (columns_num, after_num) ← read_u32 after_magic
  (cols, n) ← deserialize_columns columns_num after_num
  (manage, _) ← read_bool (drop n after_num)
  ok (record { columns = cols; is_manage = manage }, (4 + 4 + n + 1) % 2 ^ 32)
