-- ===== src/Record/Row.antt =====
-- record/row.cpp, include/record/row.h and include/common/rowid.h: a row, its address, and its
-- storage format. The schema passed in is not null; the fields of a row are not null pointers.
pub mod NullMap
pub mod Format
use wslproject.Base.{
  ℕ, zero, suc, ◌+◌, ◌-◌, ◌%◌, ◌*◌, ◌/◌, ◌^◌, Bool, true, false, not, List, [], ◌∷◌, ◌++◌, Option,
  none, some, Result, ok, err, ◌>>=◌, ◌>>◌, assert, ◌==◌, ◌&&◌, if◌then◌else◌, length, get_or,
  get_elem?, drop, replicate, out_of_range, assertion,
}
use wslproject.Base.Bits.{or_bit_at, and_bit}
use wslproject.Base.Bytes.{write_u32, read_u32, read_bytes}
use wslproject.Record.Types.{
  Field, TypeId, null_field, serialize_field, field_serialized_size, deserialize_field,
}
use wslproject.Record.Column.{Column}
use wslproject.Record.Schema.{Schema, get_column, get_column_index, deref}

pub record RowId : Type 0 where
  pub page_id : ℕ
  pub slot_num : ℕ

abbrev pub invalid_page_id : ℕ
invalid_page_id = 2 ^ 32 - 1

abbrev pub invalid_rowid : RowId
invalid_rowid = record { page_id = invalid_page_id; slot_num = 0 }

-- RowId::Get, the pattern of an int64_t: the halves that `|` joins do not overlap.
unfoldable pub rowid_get : RowId → ℕ
rowid_get r = r.page_id * 2 ^ 32 + r.slot_num

-- RowId(int64_t)
unfoldable pub rowid_of : ℕ → RowId
rowid_of n = record { page_id = n / 2 ^ 32 % 2 ^ 32; slot_num = n % 2 ^ 32 }

-- RowId::operator==
unfoldable pub rowid_eq : RowId → RowId → Bool
rowid_eq a b = a.page_id == b.page_id && a.slot_num == b.slot_num

pub record Row : Type 0 where
  pub rid : RowId
  pub fields : List Field

-- Row(rid)
abbrev pub new_row : RowId → Row
new_row r = record { rid = r; fields = [] }

-- `for (i …) if (fields_[i]->IsNull()) nullBMap[i/8] |= 1 << (i % 8);` from field `i` on
unfoldable pub null_map_from : ℕ → List Field → List ℕ → List ℕ
null_map_from i [] m = m
null_map_from i (f ∷ fs) m = null_map_from (i + 1) fs (if f.is_null then or_bit_at m i else m)

abbrev pub null_map : List Field → List ℕ
null_map fs = null_map_from 0 fs (replicate (length fs / 8 + 1) 0)

-- `if (!fields_[i]->IsNull()) ofs += fields_[i]->SerializeTo(buf + ofs);`
unfoldable pub write_field : Field → Result (List ℕ × ℕ)
write_field f = if not f.is_null then serialize_field f else ok ([], 0)

-- The loop that writes the fields that are not null, with what is added to `ofs`.
unfoldable pub serialize_fields : List Field → Result (List ℕ × ℕ)
serialize_fields [] = ok ([], 0)
serialize_fields (f ∷ fs) = do
  (own, n) ← write_field f
  (bytes, m) ← serialize_fields fs
  ok (own ++ bytes, n + m)

abbrev pub write_rowid : RowId → List ℕ
write_rowid r = write_u32 r.page_id ++ write_u32 r.slot_num

-- Row::SerializeTo: the bytes written, and the size returned.
unfoldable pub serialize_row : Row → Schema → Result (List ℕ × ℕ)
unfolding serialize_fields write_field null_map_from
serialize_row row schema = do
  assert (length schema.columns == length row.fields)
  (bytes, n) ← serialize_fields row.fields
  ok (
    write_rowid row.rid ++ (write_u32 (length row.fields) ++ (null_map row.fields ++ bytes)),
    (8 + 4 + (length row.fields / 8 + 1) + n) % 2 ^ 32,
  )

-- `nullBMap[i/8] & (1 << (i % 8))`, as a bool
abbrev pub null_indicator : List ℕ → ℕ → Bool
null_indicator m i = and_bit (get_or m (i / 8) 0) (i % 8)

-- One round of the loop over the fields in DeserializeFrom.
unfoldable pub read_field : TypeId → Bool → List ℕ → Result (Field × ℕ)
read_field t is_null buf = if is_null then ok (null_field t, 0) else deserialize_field buf t is_null

-- The loop over the fields in DeserializeFrom: `k` fields from field `i` on, and what is added to `ofs`.
unfoldable pub deserialize_fields : Schema → List ℕ → ℕ → ℕ → List ℕ → Result (List Field × ℕ)
deserialize_fields schema m i zero buf = ok ([], 0)
deserialize_fields schema m i (suc k) buf = do
  column ← get_column schema i
  (f, n) ← read_field column.type_id (null_indicator m i) buf
  (fs, n') ← deserialize_fields schema m (i + 1) k (drop n buf)
  ok (f ∷ fs, n + n')

-- Row::DeserializeFrom on `row`: the row, and the size returned.
unfoldable pub deserialize_row : Row → List ℕ → Schema → Result (Row × ℕ)
unfolding deserialize_fields read_field
deserialize_row row buf schema = do
  assert (length row.fields == 0)
  (page, after_page) ← read_u32 buf
  (slot, after_rid) ← read_u32 after_page
  (count, after_count) ← read_u32 after_rid
  (m, after_map) ← read_bytes (count / 8 + 1) after_count
  (fs, n) ← deserialize_fields schema m 0 count after_map
  ok (
    record { rid = record { page_id = page; slot_num = slot }; fields = fs },
    (8 + 4 + (count / 8 + 1) + n) % 2 ^ 32,
  )

-- `if (!fields_[i]->IsNull()) ofs += fields_[i]->GetSerializedSize();`
unfoldable pub field_size : Field → Result ℕ
field_size f = if not f.is_null then field_serialized_size f else ok 0

unfoldable pub fields_size : List Field → Result ℕ
fields_size [] = ok 0
fields_size (f ∷ fs) = do n ← field_size f; m ← fields_size fs; ok (n + m)

-- Row::GetSerializedSize
unfoldable pub row_serialized_size : Row → Schema → Result ℕ
unfolding fields_size field_size
row_serialized_size row schema = do
  assert (length schema.columns == length row.fields)
  n ← fields_size row.fields
  ok ((8 + 4 + (length row.fields / 8 + 1) + n) % 2 ^ 32)

-- GetField
unfoldable pub get_field : Row → ℕ → Result Field
get_field row idx = elim (get_elem? row.fields idx) [ none ↦ err assertion | some f ↦ ok f ]

-- The loop of GetKeyFromRow over the key's columns. A name that the schema lacks leaves `idx` as it
-- was at the column before.
unfoldable pub key_fields : Row → Schema → List (Option Column) → ℕ → Result (List Field)
key_fields row schema [] idx = ok []
key_fields row schema (c ∷ cs) idx = do
  column ← deref c
  found ← get_column_index schema column.name
  let idx' : ℕ = elim found [ none ↦ idx | some i ↦ i ]
  f ← get_field row idx'
  fs ← key_fields row schema cs idx'
  ok (f ∷ fs)

-- Row::GetKeyFromRow; `idx` is the index variable's first value, which the source leaves unset.
unfoldable pub get_key_from_row : Row → Schema → Schema → ℕ → Result Row
unfolding key_fields
get_key_from_row row schema key_schema idx = do
  fs ← key_fields row schema key_schema.columns idx
  ok (record { rid = invalid_rowid; fields = fs })
