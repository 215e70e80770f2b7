-- ===== src/Record/Row/Format.antt =====
-- The storage format of rows (record/row.cpp), and of their addresses (include/common/rowid.h).
use wslproject.Base.{
  ◌↔◌, ℕ, ◌+◌, ◌%◌, ◌/◌, ◌^◌, ◌≤◌, ◌<◌, ◌≡◌, refl, sym, ap, ◌∙◌, true, List, [], ◌∷◌, ◌++◌, ok,
  length, length-append, All, drop-append, ==_refl, arith, Bool-cases, inl, inr, if◌then◌else◌,
}
use wslproject.Base.Bytes.{
  IsU32, write_u32, read_u32-write_u32, length-write_u32, read_bytes-append, read_bytes,
}
use wslproject.Record.Types.{Field, null_field}
use wslproject.Record.Types.Format.{
  IsStored, stored_int, stored_float, stored_char, stored_null, payload, IsStored-Travels,
}
use wslproject.Record.Column.{Column}
use wslproject.Record.Schema.{Schema, get_column}
use wslproject.Record.Row.{
  RowId, rowid_get, rowid_of, rowid_eq, Row, new_row, null_map, serialize_fields, serialize_row,
  deserialize_fields, deserialize_row, fields_size, row_serialized_size, write_field, read_field,
  field_size,
}
use wslproject.Record.Row.NullMap.{NullBits, null_map-NullBits, length-null_map}
use mathlib.Core.List.{append_assoc}
use mathlib.Core.Path.{subst}

-- The fields, from field `i` on, have the types of the schema's columns.
abbrev pub FitsFrom : Schema → ℕ → List Field → Type 0
FitsFrom schema i [] = Unit {0}
FitsFrom schema i (f ∷ fs) =
    ((c : Column) × (get_column schema i ≡ ok c) × (c.type_id ≡ f.type_id))
    × FitsFrom schema (i + 1) fs

-- The bytes of one field: none, if it is null.
unfoldable pub field_bytes : Field → List ℕ
field_bytes f = if f.is_null then [] else payload f

unfoldable pub fields_bytes : List Field → List ℕ
fields_bytes [] = []
fields_bytes (f ∷ fs) = field_bytes f ++ fields_bytes fs

null_field_of : (f : Field) → IsStored f → f.is_null ≡ true → null_field f.type_id ≡ f
null_field_of f (stored_int _ n _ _ _) e = cc
null_field_of f (stored_float _ n _ _ _) e = cc
null_field_of f (stored_char _ n _ _ _) e = cc
null_field_of f (stored_null _ n) e = sym n

-- One field is written, measured and read back.
module _ (f : Field) (h : IsStored f) where
  write_field_lem : write_field f ≡ ok (field_bytes f, length (field_bytes f))
  unfolding write_field field_bytes
  write_field_lem = elim (Bool-cases f.is_null) [
    | inl e ↦ ground arith
    | inr e ↦ let t = IsStored-Travels f [] h e in ground (arith, t.written)
  ]

  field_size_lem : field_size f ≡ ok (length (field_bytes f))
  unfolding field_size field_bytes
  field_size_lem = elim (Bool-cases f.is_null) [
    | inl e ↦ ground arith
    | inr e ↦ let t = IsStored-Travels f [] h e in ground (arith, t.sized)
  ]

  read_field_lem :
      (rest : List ℕ)
      → read_field f.type_id f.is_null (field_bytes f ++ rest) ≡ ok (f, length (field_bytes f))
  unfolding read_field field_bytes
  read_field_lem rest = elim (Bool-cases f.is_null) [
    | inl e ↦ let t = null_field_of f h e in ground (arith, t)
    | inr e ↦ let t = IsStored-Travels f rest h e in ground (arith, t.read_back)
  ]

serialize_fields_lem :
    (fs : List Field)
    → All IsStored fs
    → serialize_fields fs ≡ ok (fields_bytes fs, length (fields_bytes fs))
unfolding serialize_fields fields_bytes
serialize_fields_lem [] h = refl
serialize_fields_lem (f ∷ fs) h = rw (
  write_field_lem f h.0,
  serialize_fields_lem fs h.1,
  length-append (field_bytes f) (fields_bytes fs),
)

fields_size_lem :
    (fs : List Field) → All IsStored fs → fields_size fs ≡ ok (length (fields_bytes fs))
unfolding fields_size fields_bytes
fields_size_lem [] h = refl
fields_size_lem (f ∷ fs) h =
    rw (
      field_size_lem f h.0,
      fields_size_lem fs h.1,
      length-append (field_bytes f) (fields_bytes fs),
    )

deserialize_fields_lem :
    (schema : Schema) (m : List ℕ) (fs : List Field) (i : ℕ) (rest : List ℕ)
    → All IsStored fs
    → FitsFrom schema i fs
    → NullBits m i fs
    → deserialize_fields schema m i (length fs) (fields_bytes fs ++ rest)
      ≡ ok (fs, length (fields_bytes fs))
unfolding deserialize_fields fields_bytes
deserialize_fields_lem schema m [] i rest h fits bits = refl
deserialize_fields_lem schema m (f ∷ fs) i rest h ((c, at, typed), fits) (bit, bits) = rw (
  append_assoc (field_bytes f) (fields_bytes fs) rest,
  at,
  bit,
  typed,
  read_field_lem f h.0 (fields_bytes fs ++ rest),
  drop-append (field_bytes f) (fields_bytes fs ++ rest),
  deserialize_fields_lem schema m fs (i + 1) rest h.1 fits bits,
  length-append (field_bytes f) (fields_bytes fs),
)

read_map :
    (fs : List Field) (rest : List ℕ)
    → read_bytes (length fs / 8 + 1) (null_map fs ++ rest) ≡ ok (null_map fs, rest)
read_map fs rest =
    subst (λ (n : ℕ). read_bytes n (null_map fs ++ rest) ≡ ok (null_map fs, rest))
      (length-null_map fs) (read_bytes-append (null_map fs) rest)

-- What a row needs to be stored under a schema: a field for each column, of its type, built by the
-- constructors, with all sizes in the range of uint32_t.
pub record IsStorable (schema : Schema) (row : Row) : Type 0 where
  pub counted : length schema.columns ≡ length row.fields
  pub fits : FitsFrom schema 0 row.fields
  pub stored : All IsStored row.fields
  pub few : length row.fields < 2 ^ 31
  pub short : length (fields_bytes row.fields) < 2 ^ 31
  pub page_u32 : IsU32 row.rid.page_id
  pub slot_u32 : IsU32 row.rid.slot_num

-- A storable row, with or without fields, is written in as many bytes as GetSerializedSize says and
-- SerializeTo returns, at least 13, and DeserializeFrom, on a row with no fields, reads back the same
-- fields, null or not, and the address that the row had when it was written, whatever lies behind.
-- The comments of row.h say something else on two points: 0 for the size of a row without fields, and
-- a header without the address.
pub deserialize_row-serialize_row :
    (schema : Schema) (row : Row) (rid : RowId) (rest : List ℕ)
    → IsStorable schema row
    → (bytes : List ℕ) × (serialize_row row schema ≡ ok (bytes, length bytes))
      × (row_serialized_size row schema ≡ ok (length bytes))
      × (13 ≤ length bytes)
      × (deserialize_row (new_row rid) (bytes ++ rest) schema ≡ ok (row, length bytes))
unfolding serialize_row row_serialized_size deserialize_row
deserialize_row-serialize_row schema row rid rest v =
    let fs : List Field = row.fields in
    let body : List ℕ = fields_bytes fs in
    let page : List ℕ = write_u32 row.rid.page_id in
    let slot : List ℕ = write_u32 row.rid.slot_num in
    let bytes : List ℕ = (page ++ slot) ++ (write_u32 (length fs) ++ (null_map fs ++ body)) in
    let long : length bytes ≡ 8 + 4 + (length fs / 8 + 1) + length body =
      simp (length-append, length-write_u32, length-null_map) (omega arith) in
    let total : (8 + 4 + (length fs / 8 + 1) + length body) % 2 ^ 32 ≡ length bytes = omega arith in
    (
      bytes,
      rw (v.counted, ==_refl (length fs), serialize_fields_lem fs v.stored, total),
      rw (v.counted, ==_refl (length fs), fields_size_lem fs v.stored, total),
      omega arith,
      simp append_assoc (
          rw
            (
              read_u32-write_u32 row.rid.page_id _ v.page_u32,
              read_u32-write_u32 row.rid.slot_num _ v.slot_u32,
              read_u32-write_u32 (length fs) _ (omega arith),
              read_map fs (body ++ rest),
              deserialize_fields_lem schema (null_map fs) fs 0 rest v.stored v.fits
                  (null_map-NullBits fs),
            )
            (ap (λ (n : ℕ). ok (row, n)) (total ∙ ap length (append_assoc page slot _)))),
    )

-- RowId::Get packs an address into 64 bits from which RowId(int64_t) restores it, and two addresses
-- are equal for operator== exactly if their packed values are.
pub rowid_of-rowid_get :
    (a b : RowId)
    → IsU32 a.page_id
    → IsU32 a.slot_num
    → IsU32 b.page_id
    → IsU32 b.slot_num
    → (rowid_of (rowid_get a) ≡ a)
      × (rowid_get a < 2 ^ 64)
      × ((rowid_eq a b ≡ true) ↔ (rowid_get a ≡ rowid_get b))
unfolding rowid_of rowid_get rowid_eq
rowid_of-rowid_get a b hp hs kp ks =
    (ground arith, omega arith, ((λ e. ground arith), (λ e. ground arith)))
