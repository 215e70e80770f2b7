-- ===== src/Base/Memory.antt =====
-- A block of memory that is read and written in place, as `reinterpret_cast` and memcpy at an offset
-- do: a list of bytes. An access that leaves the block is a fault.
use wslproject.Base.Lists.{length, get_or, take, drop}
use wslproject.Base.Results.{Result, ok, err, out_of_bounds}
use wslproject.Base.Tests.{leb, le→leb, if◌then◌else◌}
use wslproject.Base.Bytes.{write_u32}
use Prim.Native.Nat.{ℕ, zero, suc, ◌+◌, ◌*◌, ◌≤◌}
use mathlib.Core.Path.{◌≡◌, refl}
use mathlib.Core.List.{List, [], ◌∷◌}

-- The block with `bs` written over its bytes from `o` on.
unfoldable pub splice : List ℕ → ℕ → List ℕ → List ℕ
splice [] o bs = []
splice (x ∷ p) zero [] = x ∷ p
splice (x ∷ p) zero (b ∷ bs) = b ∷ splice p zero bs
splice (x ∷ p) (suc o) bs = x ∷ splice p o bs

-- The bytes from `o` on, `n` of them.
abbrev pub slice : List ℕ → ℕ → ℕ → List ℕ
slice p o n = take n (drop o p)

-- The number that four bytes make.
unfoldable pub word : List ℕ → ℕ → ℕ
word p o =
    get_or p o 0
    + 256 * get_or p (o + 1) 0
    + 65536 * get_or p (o + 2) 0
    + 16777216 * get_or p (o + 3) 0

unfoldable pub store : List ℕ → ℕ → List ℕ → Result (List ℕ)
store p o bs = if leb (o + length bs) (length p) then ok (splice p o bs) else err out_of_bounds

unfoldable pub load : List ℕ → ℕ → ℕ → Result (List ℕ)
load p o n = if leb (o + n) (length p) then ok (slice p o n) else err out_of_bounds

unfoldable pub load_u32 : List ℕ → ℕ → Result ℕ
load_u32 p o = if leb (o + 4) (length p) then ok (word p o) else err out_of_bounds

abbrev pub put : List ℕ → ℕ → ℕ → List ℕ
put p o n = splice p o (write_u32 n)

unfoldable pub store_u32 : List ℕ → ℕ → ℕ → Result (List ℕ)
store_u32 p o n = if leb (o + 4) (length p) then ok (put p o n) else err out_of_bounds

-- The bytes from `o` on, for a reader that takes as many as it needs.
unfoldable pub load_from : List ℕ → ℕ → Result (List ℕ)
load_from p o = if leb o (length p) then ok (drop o p) else err out_of_bounds

module _ (p : List ℕ) (o : ℕ) where
  pub load_u32-eq : o + 4 ≤ length p → load_u32 p o ≡ ok (word p o)
  unfolding load_u32
  load_u32-eq h = rw (le→leb (o + 4) (length p) h) refl

  pub store_u32-eq : (n : ℕ) → o + 4 ≤ length p → store_u32 p o n ≡ ok (put p o n)
  unfolding store_u32
  store_u32-eq n h = rw (le→leb (o + 4) (length p) h) refl

  pub store-eq : (bs : List ℕ) → o + length bs ≤ length p → store p o bs ≡ ok (splice p o bs)
  unfolding store
  store-eq bs h = rw (le→leb (o + length bs) (length p) h) refl

  pub load-eq : (n : ℕ) → o + n ≤ length p → load p o n ≡ ok (slice p o n)
  unfolding load
  load-eq n h = rw (le→leb (o + n) (length p) h) refl

  pub load_from-eq : o ≤ length p → load_from p o ≡ ok (drop o p)
  unfolding load_from
  load_from-eq h = rw (le→leb o (length p) h) refl
