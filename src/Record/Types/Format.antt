-- ===== src/Record/Types/Format.antt =====
-- The storage format of values (record/types.cpp): what SerializeTo writes, DeserializeFrom reads.
use wslproject.Base.{
  ℕ, ◌+◌, ◌<◌, ◌≡◌, refl, sym, ap, ◌∙◌, Bool, false, List, [], ◌++◌, ok, length, length-append,
  lt→ltb, arith, ◌≢◌,
}
use wslproject.Base.Bytes.{
  IsU32, write_u32, read_bytes, read_u32-write_u32, length-write_u32, read_bytes-append,
}
use wslproject.Record.Types.{
  TypeId, type_invalid, type_int, type_float, type_char, Field, varchar_max_len, null_field,
  serialize_field, serialize_as, deserialize_field, field_serialized_size, serialized_size_as,
}
use mathlib.Core.List.{append_assoc, append-nil}
use mathlib.Core.Path.{subst}

-- The fields that a row holds: built by the constructors of Field, and short enough to be copied.
pub data IsStored (f : Field) : Type 0 where
  stored_int :
      f.type_id ≡ type_int
      → f.is_null ≡ false
      → f.len ≡ 4
      → f.chars ≡ []
      → IsU32 f.bits
      → IsStored f
  stored_float :
      f.type_id ≡ type_float
      → f.is_null ≡ false
      → f.len ≡ 4
      → f.chars ≡ []
      → IsU32 f.bits
      → IsStored f
  stored_char :
      f.type_id ≡ type_char
      → f.is_null ≡ false
      → f.len ≡ length f.chars
      → f.bits ≡ 0
      → f.len < varchar_max_len
      → IsStored f
  stored_null : f.type_id ≢ type_invalid → f ≡ null_field f.type_id → IsStored f

-- The bytes of a value that is not null.
unfoldable pub payload_as : TypeId → Field → List ℕ
payload_as type_char f = write_u32 f.len ++ f.chars
payload_as _ f = write_u32 f.bits

abbrev pub payload : Field → List ℕ
payload f = payload_as f.type_id f

-- What holds of one stored value that is not null, with `rest` behind it in memory: it is written as
-- `payload f`, as long as GetSerializedSize says, and read back whole.
pub record Travels (f : Field) (rest : List ℕ) : Type 0 where
  pub written : serialize_field f ≡ ok (payload f, length (payload f))
  pub sized : field_serialized_size f ≡ ok (length (payload f))
  pub read_back : deserialize_field (payload f ++ rest) f.type_id false ≡ ok (f, length (payload f))

IsU32-of_char_len : (n : ℕ) → n < varchar_max_len → IsU32 n
IsU32-of_char_len n h = omega arith

read_whole : (s : List ℕ) → read_bytes (length s) s ≡ ok (s, [])
read_whole s =
    subst (λ t. read_bytes (length s) t ≡ ok (s, [])) (append-nil s) (read_bytes-append s [])

field_of :
    {f : Field} {t : TypeId} {n b : ℕ} {null : Bool} {s : List ℕ}
    → f.type_id ≡ t
    → f.len ≡ n
    → f.is_null ≡ null
    → f.bits ≡ b
    → f.chars ≡ s
    → f ≡ record { type_id = t; len = n; is_null = null; bits = b; chars = s }
field_of p q r u v =
    λ i. record { type_id = p i; len = q i; is_null = r i; bits = u i; chars = v i }

int_Travels :
    (b : ℕ) (rest : List ℕ)
    → IsU32 b
    → Travels (record { type_id = type_int; len = 4; is_null = false; bits = b; chars = [] }) rest
unfolding serialize_as serialized_size_as deserialize_field payload_as
int_Travels b rest h = record {
  written = rw (length-write_u32 b);
  sized = rw (length-write_u32 b);
  read_back = rw (read_u32-write_u32 b rest h, length-write_u32 b);
}

float_Travels :
    (b : ℕ) (rest : List ℕ)
    → IsU32 b
    → Travels (record { type_id = type_float; len = 4; is_null = false; bits = b; chars = [] }) rest
unfolding serialize_as serialized_size_as deserialize_field payload_as
float_Travels b rest h = record {
  written = rw (length-write_u32 b);
  sized = rw (length-write_u32 b);
  read_back = rw (read_u32-write_u32 b rest h, length-write_u32 b);
}

length-char_payload : (s : List ℕ) → length (write_u32 (length s) ++ s) ≡ length s + 4
length-char_payload s =
    length-append (write_u32 (length s)) s ∙ omega (arith, length-write_u32 (length s))

char_Travels :
    (s rest : List ℕ)
    → length s < varchar_max_len
    → Travels
        (record { type_id = type_char; len = length s; is_null = false; bits = 0; chars = s })
        rest
unfolding serialize_as serialized_size_as deserialize_field payload_as
char_Travels s rest h = record {
  written = rw (length-char_payload s) (rw (read_whole s));
  sized = rw (length-char_payload s);
  read_back =
      rw
        (
          append_assoc (write_u32 (length s)) s rest,
          read_u32-write_u32 (length s) (s ++ rest) (IsU32-of_char_len _ h),
          lt→ltb (length s) varchar_max_len h,
          length-char_payload s,
        )
        (rw (read_bytes-append s rest));
}

-- Every stored value that is not null travels through memory unchanged, whatever lies behind it.
pub IsStored-Travels : (f : Field) (rest : List ℕ) → IsStored f → f.is_null ≡ false → Travels f rest
IsStored-Travels f rest (stored_int t nn n s h) e =
    subst (λ g. Travels g rest) (sym (field_of t n nn refl s)) (int_Travels f.bits rest h)
IsStored-Travels f rest (stored_float t nn n s h) e =
    subst (λ g. Travels g rest) (sym (field_of t n nn refl s)) (float_Travels f.bits rest h)
IsStored-Travels f rest (stored_char t nn n b h) e =
    subst (λ g. Travels g rest) (sym (field_of t n nn b refl))
      (char_Travels f.chars rest (omega arith))
IsStored-Travels f rest (stored_null t n) e = cc (ap (λ (g : Field). g.is_null) n)
