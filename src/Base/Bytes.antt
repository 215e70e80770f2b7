-- ===== src/Base/Bytes.antt =====
-- Memory as a list of bytes: the MACH_WRITE and MACH_READ macros of include/common/macros.h.
-- A `char *` is the list of the bytes from that address on; numbers are little-endian.
use wslproject.Base.Lists.{length, length-append, drop-append, take, drop, All}
use wslproject.Base.Results.{Result, ok, err, out_of_bounds}
use wslproject.Base.Tests.{ltb, le→ltb, ◌==◌, if◌then◌else◌}
use Prim.Native.Nat.{ℕ, ◌+◌, ◌*◌, ◌/◌, ◌%◌, ◌^◌, ◌<◌}
use mathlib.Core.Path.{◌≡◌, refl, ap}
use mathlib.Core.Bool.{Bool, true, false, not}
use mathlib.Core.List.{List, [], ◌∷◌, ◌++◌}
use native.Mathlib.Omega.{arith}

abbrev pub IsByte : ℕ → Type 0
IsByte b = b < 256

-- A uint32_t, or the bit pattern of an int32_t or a float.
abbrev pub IsU32 : ℕ → Type 0
IsU32 n = n < 2 ^ 32

-- MACH_WRITE_UINT32, and MACH_WRITE_TO at the other types of four bytes.
unfoldable pub write_u32 : ℕ → List ℕ
write_u32 n = (n % 256) ∷ (n / 256 % 256) ∷ (n / 65536 % 256) ∷ (n / 16777216 % 256) ∷ []

-- MACH_READ_UINT32, with the bytes behind what is read.
unfoldable pub read_u32 : List ℕ → Result (ℕ × List ℕ)
read_u32 (a ∷ b ∷ c ∷ d ∷ rest) = ok (a + 256 * b + 65536 * c + 16777216 * d, rest)
read_u32 _ = err out_of_bounds

unfoldable pub write_bool : Bool → List ℕ
write_bool true = 1 ∷ []
write_bool false = 0 ∷ []

unfoldable pub read_bool : List ℕ → Result (Bool × List ℕ)
read_bool [] = err out_of_bounds
read_bool (b ∷ rest) = ok (not (b == 0), rest)

-- `n` bytes from the address on, as memcpy or a loop over MACH_READ_FROM(char, …) takes them.
unfoldable pub read_bytes : ℕ → List ℕ → Result (List ℕ × List ℕ)
read_bytes n buf = if ltb (length buf) n then err out_of_bounds else ok (take n buf, drop n buf)

pub read_u32-write_u32 :
    (n : ℕ) (rest : List ℕ) → IsU32 n → read_u32 (write_u32 n ++ rest) ≡ ok (n, rest)
unfolding read_u32 write_u32
read_u32-write_u32 n rest h = ground arith

pub length-write_u32 : (n : ℕ) → length (write_u32 n) ≡ 4
unfolding write_u32
length-write_u32 n = refl

pub write_u32-IsByte : (n : ℕ) → All IsByte (write_u32 n)
unfolding write_u32
write_u32-IsByte n = omega arith

pub read_bool-write_bool :
    (b : Bool) (rest : List ℕ) → read_bool (write_bool b ++ rest) ≡ ok (b, rest)
unfolding read_bool write_bool
read_bool-write_bool true rest = refl
read_bool-write_bool false rest = refl

pub length-write_bool : (b : Bool) → length (write_bool b) ≡ 1
unfolding write_bool
length-write_bool true = refl
length-write_bool false = refl

pub take-append_le : (xs ys : List ℕ) → take (length xs) (xs ++ ys) ≡ xs
take-append_le [] ys = refl
take-append_le (x ∷ xs) ys = ap (◌∷◌ x) (take-append_le xs ys)

pub read_bytes-append : (xs rest : List ℕ) → read_bytes (length xs) (xs ++ rest) ≡ ok (xs, rest)
unfolding read_bytes
read_bytes-append xs rest = rw (
  le→ltb (length (xs ++ rest)) (length xs) (omega (arith, length-append xs rest)),
  take-append_le xs rest,
  drop-append xs rest,
)

-- What a pointer that advances by the size of what was read points at.
pub ruleset reads = (read_u32-write_u32, read_bool-write_bool, read_bytes-append)
