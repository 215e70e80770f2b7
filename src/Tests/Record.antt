-- ===== src/Tests/Record.antt =====
-- A table of a number and a text, one row of it, and comparisons of fields (record/).
use wslproject.Base.{
  ℕ, ◌^◌, ◌≤◌, ◌<◌, ◌≡◌, ◌↔◌, refl, true, false, List, [], ◌∷◌, ◌++◌, length, ok, inr, arith,
}
use wslproject.Base.Bytes.{write_u32, write_bool}
use wslproject.Base.Int.{◌<ℤ◌}
use wslproject.Record.Types.{
  Field, type_int, type_char, null_field, less_than, equals, cmp_true, compare_fields,
}
use wslproject.Record.Types.Format.{IsStored, payload_as, stored_int, stored_char, stored_null}
use wslproject.Record.Types.Order.{signed32, mirror, compare_fields-signed32, compare_fields-mirror}
use wslproject.Record.Types.Texts.{LexLt, compare_fields-LexLt}
use wslproject.Record.Column.{Column, new_column, new_char_column, fixed_len, serialize_column}
use wslproject.Record.Column.Format.{IsBuilt, construct_column-IsBuilt}
use wslproject.Record.Schema.{
  Schema, serialize_schema, schema_serialized_size, deserialize_schema, get_column,
}
use wslproject.Record.Schema.Format.{pointers, columns_bytes, deserialize_schema-serialize_schema}
use wslproject.Record.Row.{
  Row, new_row, invalid_rowid, rowid_get, rowid_of, rowid_eq, serialize_row, row_serialized_size,
  deserialize_row,
}
use wslproject.Record.Row.Format.{
  IsStorable, fields_bytes, field_bytes, deserialize_row-serialize_row, rowid_of-rowid_get,
}

abbrev pub int_of : ℕ → Field
int_of n = record { type_id = type_int; len = 4; is_null = false; bits = n; chars = [] }

abbrev text_of : List ℕ → Field
text_of s = record { type_id = type_char; len = length s; is_null = false; bits = 0; chars = s }

minus_one-IsStored : IsStored (int_of 4294967295)
minus_one-IsStored = stored_int refl refl refl refl (omega arith)

text-IsStored : IsStored (text_of (97 ∷ 98 ∷ []))
text-IsStored = stored_char refl refl refl refl (omega arith)

compare_fields-signed32_example :
    ((compare_fields less_than (int_of 4294967295) (int_of 5) ≡ ok cmp_true)
      ↔ (signed32 4294967295 <ℤ signed32 5))
    × ((compare_fields equals (int_of 4294967295) (int_of 5) ≡ ok cmp_true)
        ↔ (signed32 4294967295 ≡ signed32 5))
compare_fields-signed32_example =
    compare_fields-signed32 (int_of 4294967295) (int_of 5) refl refl refl refl (omega arith)
      (omega arith)

compare_fields-mirror_example :
    compare_fields (mirror less_than) (int_of 5) (int_of 3)
    ≡ compare_fields less_than (int_of 3) (int_of 5)
compare_fields-mirror_example = compare_fields-mirror less_than (int_of 3) (int_of 5) refl

compare_fields-LexLt_example :
    ((compare_fields less_than (text_of (97 ∷ [])) (text_of (97 ∷ 98 ∷ [])) ≡ ok cmp_true)
      ↔ LexLt (97 ∷ []) (97 ∷ 98 ∷ []))
    × ((compare_fields equals (text_of (97 ∷ [])) (text_of (97 ∷ 98 ∷ [])) ≡ ok cmp_true)
        ↔ ((text_of (97 ∷ [])).chars ≡ (text_of (97 ∷ 98 ∷ [])).chars))
compare_fields-LexLt_example =
    compare_fields-LexLt (text_of (97 ∷ [])) (text_of (97 ∷ 98 ∷ [])) refl refl refl refl refl refl
      (omega arith) (omega arith)

abbrev pub id_column : Column
id_column = record {
  name = 105 ∷ [];
  type_id = type_int;
  len = 4;
  table_ind = 0;
  nullable = false;
  unique = true;
}

abbrev name_column : Column
name_column = record {
  name = 110 ∷ [];
  type_id = type_char;
  len = 8;
  table_ind = 1;
  nullable = true;
  unique = false;
}

id_column-eq : new_column (105 ∷ []) type_int 0 false true ≡ ok id_column
unfolding new_column fixed_len
id_column-eq = refl

id_column-IsBuilt : IsBuilt id_column
id_column-IsBuilt = record {
  named = omega arith;
  placed = omega arith;
  sized = omega arith;
  typed = λ h. cc;
  fixed = λ h. refl;
}

name_column-IsBuilt : IsBuilt name_column
name_column-IsBuilt =
    construct_column-IsBuilt type_char (110 ∷ []) 8 1 true false (omega arith) (omega arith)
      (omega arith) (inr built)
  where
    built : new_char_column (110 ∷ []) type_char 8 1 true false ≡ ok name_column
    built = unfold new_char_column in refl

abbrev two_columns : List Column
two_columns = id_column ∷ name_column ∷ []

abbrev two_schema : Schema
two_schema = record { columns = pointers two_columns; is_manage = true }

columns-short : length (columns_bytes two_columns) < 2 ^ 31
unfolding columns_bytes serialize_column write_u32 write_bool
columns-short = omega arith

deserialize_schema-serialize_schema_example :
    (bytes : List ℕ) × (serialize_schema two_schema ≡ ok (bytes, length bytes))
    × (schema_serialized_size two_schema ≡ ok (length bytes))
    × (deserialize_schema (bytes ++ []) ≡ ok (two_schema, length bytes))
deserialize_schema-serialize_schema_example =
    deserialize_schema-serialize_schema two_columns true []
      (id_column-IsBuilt, (name_column-IsBuilt, tt)) (omega arith) columns-short

abbrev one_row : Row
one_row = record {
  rid = record { page_id = 3; slot_num = 1 };
  fields = int_of 4294967295 ∷ null_field type_char ∷ [];
}

one_row-IsStorable : IsStorable two_schema one_row
unfolding fields_bytes field_bytes get_column payload_as write_u32
one_row-IsStorable = record {
  counted = refl;
  fits = ((id_column, refl, refl), ((name_column, refl, refl), tt));
  stored = (minus_one-IsStored, (stored_null (λ h. cc) refl, tt));
  few = omega arith;
  short = omega arith;
  page_u32 = omega arith;
  slot_u32 = omega arith;
}

deserialize_row-serialize_row_example :
    (bytes : List ℕ) × (serialize_row one_row two_schema ≡ ok (bytes, length bytes))
    × (row_serialized_size one_row two_schema ≡ ok (length bytes))
    × (13 ≤ length bytes)
    × (deserialize_row (new_row invalid_rowid) (bytes ++ (4 ∷ [])) two_schema
        ≡ ok (one_row, length bytes))
deserialize_row-serialize_row_example =
    deserialize_row-serialize_row two_schema one_row invalid_rowid (4 ∷ []) one_row-IsStorable

rowid_of-rowid_get_example :
    (rowid_of (rowid_get (record { page_id = 3; slot_num = 1 }))
      ≡ record { page_id = 3; slot_num = 1 })
    × (rowid_get (record { page_id = 3; slot_num = 1 }) < 2 ^ 64)
    × ((rowid_eq (record { page_id = 3; slot_num = 1 }) invalid_rowid ≡ true)
        ↔ (rowid_get (record { page_id = 3; slot_num = 1 }) ≡ rowid_get invalid_rowid))
rowid_of-rowid_get_example =
    rowid_of-rowid_get (record { page_id = 3; slot_num = 1 }) invalid_rowid (omega arith)
      (omega arith) (omega arith) (omega arith)
