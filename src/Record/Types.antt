-- ===== src/Record/Types.antt =====
-- include/record/type_id.h, include/record/types.h, include/record/field.h and record/types.cpp:
-- a value of one of three types, its storage format and its comparisons.
-- The union `value_` is `bits`, the pattern of `integer_` or `float_`, beside `chars`, the bytes
-- behind `chars_`; a value uses one of them. Who frees `chars_` (`manage_data_`) is not modelled.
pub mod Format
pub mod Order
pub mod Texts
use wslproject.Base.{
  ℕ, zero, suc, ◌+◌, ◌-◌, ◌*◌, ◌/◌, ◌%◌, ◌^◌, ◌≤◌, ◌<◌, ◌≡◌, refl, Bool, true, false, ◌&&◌, ◌||◌,
  not, List, [], ◌∷◌, ◌++◌, Result, ok, err, Fault, assertion, logic_error, thrown_text,
  out_of_bounds, ◌>>=◌, ◌>>◌, assert, ltb, leb, ◌==◌, if◌then◌else◌, length, take, arith,
}
use wslproject.Base.Bytes.{write_u32, read_u32, read_bytes}
use Prim.Native.Nat.{min, Ordering, compare}

pub data TypeId : Type 0 where
  type_invalid type_int type_float type_char : TypeId

pub data CmpBool : Type 0 where
  cmp_false cmp_true cmp_null : CmpBool

abbrev pub get_cmp_bool : Bool → CmpBool
get_cmp_bool true = cmp_true
get_cmp_bool false = cmp_false

-- The enumerators' values.
abbrev pub type_code : TypeId → ℕ
type_code type_invalid = 0
type_code type_int = 1
type_code type_float = 2
type_code type_char = 3

abbrev pub cmp_code : CmpBool → ℕ
cmp_code cmp_false = 0
cmp_code cmp_true = 1
cmp_code cmp_null = 2

abbrev pub type_eq : TypeId → TypeId → Bool
type_eq a b = type_code a == type_code b

abbrev pub field_null_len : ℕ
field_null_len = 2 ^ 32 - 1

abbrev pub varchar_max_len : ℕ
varchar_max_len = 4096 / 2

-- Type::GetTypeSize; the other types make it throw a text, which is no std::exception.
unfoldable pub get_type_size : TypeId → Result ℕ
get_type_size type_int = ok 4
get_type_size type_float = ok 4
get_type_size type_char = ok 0
get_type_size type_invalid = err thrown_text

pub record Field : Type 0 where
  pub type_id : TypeId
  pub len : ℕ
  pub is_null : Bool
  pub bits : ℕ
  pub chars : List ℕ

-- Field(type)
abbrev pub null_field : TypeId → Field
null_field t = record { type_id = t; len = field_null_len; is_null = true; bits = 0; chars = [] }

-- Field(type, i), for an int32_t by its pattern
unfoldable pub int_field : TypeId → ℕ → Result Field
unfolding get_type_size
int_field t i = do
  assert (type_eq t type_int)
  size ← get_type_size t
  ok (record { type_id = t; len = size; is_null = false; bits = i; chars = [] })

-- Field(type, f), for a float by its pattern
unfoldable pub float_field : TypeId → ℕ → Result Field
unfolding get_type_size
float_field t f = do
  assert (type_eq t type_float)
  size ← get_type_size t
  ok (record { type_id = t; len = size; is_null = false; bits = f; chars = [] })

-- Field(type, data, len, true), for `data` that is not null: a copy of the first `len` bytes
unfoldable pub char_field : TypeId → List ℕ → ℕ → Result Field
unfolding read_bytes
char_field t source n = do
  assert (type_eq t type_char)
  assert (ltb n varchar_max_len)
  (copy, _) ← read_bytes n source
  ok (record { type_id = t; len = n; is_null = false; bits = 0; chars = copy })

-- SerializeTo of TypeInt, TypeFloat and TypeChar: the bytes written, and the size returned.
unfoldable pub serialize_int : Field → Result (List ℕ × ℕ)
unfolding get_type_size
serialize_int f =
    if not f.is_null
    then (do size ← get_type_size type_int; ok (write_u32 f.bits, size))
    else ok ([], 0)

unfoldable pub serialize_float : Field → Result (List ℕ × ℕ)
unfolding get_type_size
serialize_float f =
    if not f.is_null
    then (do size ← get_type_size type_float; ok (write_u32 f.bits, size))
    else ok ([], 0)

unfoldable pub serialize_char : Field → Result (List ℕ × ℕ)
unfolding read_bytes
serialize_char f =
    if not f.is_null
    then (do (text, _) ← read_bytes f.len f.chars; ok (write_u32 f.len ++ text, f.len + 4))
    else ok ([], 0)

-- Field::SerializeTo, through the table of the types' singletons; the base class asserts false.
unfoldable pub serialize_as : TypeId → Field → Result (List ℕ × ℕ)
unfolding serialize_int serialize_float serialize_char
serialize_as type_invalid f = err assertion
serialize_as type_int f = serialize_int f
serialize_as type_float f = serialize_float f
serialize_as type_char f = serialize_char f

abbrev pub serialize_field : Field → Result (List ℕ × ℕ)
serialize_field f = serialize_as f.type_id f

-- DeserializeFrom: the field, and how far the pointer is to be moved.
unfoldable pub deserialize_int : List ℕ → Bool → Result (Field × ℕ)
unfolding int_field
deserialize_int storage is_null = if is_null then ok (null_field type_int, 0) else (do
  (val, _) ← read_u32 storage
  f ← int_field type_int val
  size ← get_type_size type_int
  ok (f, size))

unfoldable pub deserialize_float : List ℕ → Bool → Result (Field × ℕ)
unfolding float_field
deserialize_float storage is_null = if is_null then ok (null_field type_float, 0) else (do
  (val, _) ← read_u32 storage
  f ← float_field type_float val
  size ← get_type_size type_float
  ok (f, size))

unfoldable pub deserialize_char : List ℕ → Bool → Result (Field × ℕ)
unfolding char_field
deserialize_char storage is_null =
    if is_null
    then ok (null_field type_char, 0)
    else (do (n, text) ← read_u32 storage; f ← char_field type_char text n; ok (f, n + 4))

-- Field::DeserializeFrom
unfoldable pub deserialize_field : List ℕ → TypeId → Bool → Result (Field × ℕ)
unfolding deserialize_int deserialize_float deserialize_char
deserialize_field buf type_invalid is_null = err assertion
deserialize_field buf type_int is_null = deserialize_int buf is_null
deserialize_field buf type_float is_null = deserialize_float buf is_null
deserialize_field buf type_char is_null = deserialize_char buf is_null

-- Field::GetSerializedSize, over TypeInt's, TypeFloat's and TypeChar's.
unfoldable pub serialized_size_as : TypeId → Field → Bool → Result ℕ
unfolding get_type_size
serialized_size_as type_invalid f is_null = err assertion
serialized_size_as type_int f is_null = if is_null then ok 0 else get_type_size type_int
serialized_size_as type_float f is_null = if is_null then ok 0 else get_type_size type_float
serialized_size_as type_char f is_null = if is_null then ok 0 else ok (f.len + 4)

abbrev pub field_serialized_size : Field → Result ℕ
field_serialized_size f = serialized_size_as f.type_id f f.is_null

-- The six comparisons.
pub data CompareOp : Type 0 where
  equals not_equals less_than less_than_equals greater_than greater_than_equals : CompareOp

-- `==`, `!=`, `<`, `<=`, `>`, `>=` between numbers that stand in the order of the values.
unfoldable pub compare_numbers : CompareOp → ℕ → ℕ → Bool
compare_numbers equals a b = a == b
compare_numbers not_equals a b = not (a == b)
compare_numbers less_than a b = ltb a b
compare_numbers less_than_equals a b = leb a b
compare_numbers greater_than a b = ltb b a
compare_numbers greater_than_equals a b = leb b a

-- The order of int32_t on patterns: the sign bit counts the other way.
unfoldable pub int_key : ℕ → ℕ
int_key w = (w + 2 ^ 31) % 2 ^ 32

-- CompareEquals and its five companions of TypeInt
unfoldable pub compare_int : CompareOp → Field → Field → Result CmpBool
unfolding compare_numbers int_key
compare_int op left right = do
  assert (type_eq left.type_id right.type_id)
  if left.is_null || right.is_null
      then ok cmp_null
      else ok (get_cmp_bool (compare_numbers op (int_key left.bits) (int_key right.bits)))

-- A float is not a number if its exponent is full and its fraction is not 0. The others are ordered
-- as sign and magnitude, the two zeros alike.
unfoldable pub float_nan : ℕ → Bool
float_nan w = ltb 0x7f80_0000 (w % 2 ^ 31)

unfoldable pub float_key : ℕ → ℕ
float_key w = if ltb w (2 ^ 31) then 2 ^ 31 + w else 2 ^ 31 - w % 2 ^ 31

-- Between floats of which one is no number every comparison is false, but `!=`.
unfoldable pub compare_floats : CompareOp → ℕ → ℕ → Bool
unfolding float_nan float_key compare_numbers
compare_floats not_equals a b =
    float_nan a || float_nan b || compare_numbers not_equals (float_key a) (float_key b)
compare_floats op a b =
    not (float_nan a || float_nan b) && compare_numbers op (float_key a) (float_key b)

-- CompareEquals and its five companions of TypeFloat
unfoldable pub compare_float : CompareOp → Field → Field → Result CmpBool
unfolding compare_floats
compare_float op left right = do
  assert (type_eq left.type_id right.type_id)
  if left.is_null || right.is_null
      then ok cmp_null
      else ok (get_cmp_bool (compare_floats op left.bits right.bits))

-- memcmp over the first `n` bytes: the sign of its result.
unfoldable pub memcmp : ℕ → List ℕ → List ℕ → Ordering
memcmp zero a b = Ordering.eq
memcmp (suc n) (x ∷ a) (y ∷ b) =
    let rest = memcmp n a b in
    elim (compare x y) [
      | Ordering.lt ↦ Ordering.lt
      | Ordering.gt ↦ Ordering.gt
      | Ordering.eq ↦ rest
    ]
memcmp (suc n) [] b = Ordering.eq
memcmp (suc n) (x ∷ a) [] = Ordering.eq

-- `if (ret == 0 && len1 != len2) ret = len1 - len2;`
abbrev pub or_lengths : Ordering → ℕ → ℕ → Ordering
or_lengths Ordering.eq len1 len2 = compare len1 len2
or_lengths Ordering.lt len1 len2 = Ordering.lt
or_lengths Ordering.gt len1 len2 = Ordering.gt

-- `static_cast<int>(len) >= 0`, for a length of 32 bits
abbrev pub fits_int : ℕ → Bool
fits_int len = ltb len (2 ^ 31)

-- memcmp of buffers that may be shorter than `n`: to read past the end of one is a fault.
unfoldable pub compare_bytes : ℕ → List ℕ → List ℕ → Result Ordering
unfolding memcmp
compare_bytes n str1 str2 =
    if leb n (length str1) && leb n (length str2)
    then ok (memcmp n str1 str2)
    else err out_of_bounds

-- CompareStrings: the sign of its result. Its lengths are narrowed to int, and asserted not to be
-- negative; the buffer of a field that is not null is not the null pointer.
unfoldable pub compare_strings : List ℕ → ℕ → List ℕ → ℕ → Result Ordering
unfolding compare_bytes
compare_strings str1 len1 str2 len2 = do
  assert (fits_int len1)
  assert (fits_int len2)
  ret ← compare_bytes (min len1 len2) str1 str2
  ok (or_lengths ret len1 len2)

-- The tests `ret == 0`, `ret != 0`, `ret < 0`, `ret <= 0`, `ret > 0`, `ret >= 0`.
unfoldable pub test_sign : CompareOp → Ordering → Bool
test_sign equals r = elim r [ Ordering.eq ↦ true | _ ↦ false ]
test_sign not_equals r = elim r [ Ordering.eq ↦ false | _ ↦ true ]
test_sign less_than r = elim r [ Ordering.lt ↦ true | _ ↦ false ]
test_sign less_than_equals r = elim r [ Ordering.gt ↦ false | _ ↦ true ]
test_sign greater_than r = elim r [ Ordering.gt ↦ true | _ ↦ false ]
test_sign greater_than_equals r = elim r [ Ordering.lt ↦ false | _ ↦ true ]

-- CompareEquals and its five companions of TypeChar
unfoldable pub compare_char : CompareOp → Field → Field → Result CmpBool
unfolding compare_strings test_sign
compare_char op left right = do
  assert (type_eq left.type_id right.type_id)
  if left.is_null || right.is_null then ok cmp_null else do
    ret ← compare_strings left.chars left.len right.chars right.len
    ok (get_cmp_bool (test_sign op ret))

-- Field::CompareEquals and its five companions, through the left field's type
unfoldable pub compare_as : TypeId → CompareOp → Field → Field → Result CmpBool
unfolding compare_int compare_float compare_char
compare_as type_invalid op left right = err assertion
compare_as type_int op left right = compare_int op left right
compare_as type_float op left right = compare_float op left right
compare_as type_char op left right = compare_char op left right

abbrev pub compare_fields : CompareOp → Field → Field → Result CmpBool
compare_fields op left right = compare_as left.type_id op left right
