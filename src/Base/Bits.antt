-- ===== src/Base/Bits.antt =====
-- Single bits of a byte and of an array of bytes, as `1 << k`, `|=`, `-=` and `>>` reach them.
use wslproject.Base.Bytes.{IsByte}
use wslproject.Base.Lists.{
  length, get_or, set, get_or-set_self, get_or-set_ne, All, All-get_or, All-set,
}
use wslproject.Base.Tests.{ltb, ltb→lt, ==_ne, ◌==◌, ==_iff, if◌then◌else◌}
use Prim.Native.Nat.{ℕ, zero, suc, ◌+◌, ◌-◌, ◌/◌, ◌%◌, ◌^◌, ◌<◌, bit_or, bit_and}
use mathlib.Core.Path.{◌≡◌, refl, ap, sym, ◌∙◌}
use mathlib.Core.Logic.{◌≢◌}
use mathlib.Core.Bool.{Bool, true, false, ◌&&◌, ◌||◌, not}
use mathlib.Core.List.{List}
use native.Mathlib.Decide.{ℕ_discrete}
use native.Mathlib.Omega.{arith}

-- Does a test hold of 0, …, bound-1? The larger numbers are tested first.
holds_to : (ℕ → Bool) → ℕ → Bool
holds_to test zero = true
holds_to test (suc bound) = if test bound then holds_to test bound else false

holds_to_lem :
    (test : ℕ → Bool) (bound : ℕ) → holds_to test bound ≡ true → (i : ℕ) → i < bound → test i ≡ true
unfolding holds_to
holds_to_lem test zero all i small = absurd (omega arith)
holds_to_lem test (suc bound) all i small = elim (ℕ_discrete i bound) [
  | yes last ↦ rw last (ground arith)
  | no earlier ↦ holds_to_lem test bound (ground arith) i (omega arith)
]

-- `b >> k & 1`
abbrev pub shifted_bit : ℕ → ℕ → ℕ
shifted_bit b k = b / 2 ^ k % 2

-- `b |= 1 << k`, `b -= 1 << k` and `b & (1 << k)` in a byte.
unfoldable pub or_bit : ℕ → ℕ → ℕ
or_bit b k = bit_or b (2 ^ k) % 256

unfoldable pub sub_bit : ℕ → ℕ → ℕ
sub_bit b k = (b + 256 - 2 ^ k) % 256

unfoldable pub and_bit : ℕ → ℕ → Bool
and_bit b k = not (bit_and b (2 ^ k) == 0)

and_left : (p q : Bool) → (p && q) ≡ true → p ≡ true
and_left p q h = ground arith

and_right : (p q : Bool) → (p && q) ≡ true → q ≡ true
and_right p q h = ground arith

or_right : (p q : Bool) → (p || q) ≡ true → p ≡ false → q ≡ true
or_right p q h e = ground arith

one_ne : ◌≢◌ {A = ℕ} 1 0
one_ne = omega arith

and_bit_cases : (t : Bool) (n : ℕ) → (if t then n == 1 else n == 0) ≡ true → t ≡ (n == 1)
and_bit_cases t n h = ground arith

-- Every bit of every byte: setting bit k sets it and leaves the others, in either reading.
or_bit_row : ℕ → ℕ → Bool
or_bit_row b k =
    ltb (or_bit b k) 256
    && holds_to (λ j. shifted_bit (or_bit b k) j == (if k == j then 1 else shifted_bit b j)) 8

sub_bit_row : ℕ → ℕ → Bool
sub_bit_row b k =
    ltb (sub_bit b k) 256
    && (shifted_bit b k == 0
        || holds_to (λ j. shifted_bit (sub_bit b k) j == (if k == j then 0 else shifted_bit b j)) 8)

and_bit_row : ℕ → ℕ → Bool
and_bit_row b k = if and_bit b k then shifted_bit b k == 1 else shifted_bit b k == 0

or_bit_table : holds_to (λ b. holds_to (or_bit_row b) 8) 256 ≡ true
unfolding holds_to or_bit_row or_bit
or_bit_table = refl

sub_bit_table : holds_to (λ b. holds_to (sub_bit_row b) 8) 256 ≡ true
unfolding holds_to sub_bit_row sub_bit
sub_bit_table = refl

and_bit_table : holds_to (λ b. holds_to (and_bit_row b) 8) 256 ≡ true
unfolding holds_to and_bit_row and_bit
and_bit_table = refl

-- A row of a table, for a byte and a position in it.
row_of :
    (rows : ℕ → ℕ → Bool) (b k : ℕ)
    → holds_to (λ c. holds_to (rows c) 8) 256 ≡ true
    → b < 256
    → k < 8
    → rows b k ≡ true
row_of rows b k table hb hk =
    holds_to_lem (rows b) 8 (holds_to_lem (λ c. holds_to (rows c) 8) 256 table b hb) k hk

module _ (b k : ℕ) (hb : b < 256) (hk : k < 8) where
  pub or_bit_lem :
      (j : ℕ) → j < 8 → shifted_bit (or_bit b k) j ≡ (if k == j then 1 else shifted_bit b j)
  unfolding or_bit_row
  or_bit_lem j hj =
      let row = row_of or_bit_row b k or_bit_table hb hk in
      (==_iff _ _).0 (holds_to_lem _ 8 (and_right _ _ row) j hj)

  pub or_bit-IsByte : IsByte (or_bit b k)
  unfolding or_bit_row
  or_bit-IsByte =
      let row = row_of or_bit_row b k or_bit_table hb hk in ltb→lt _ _ (and_left _ _ row)

  pub sub_bit_lem :
      (j : ℕ)
      → j < 8
      → shifted_bit b k ≡ 1
      → shifted_bit (sub_bit b k) j ≡ (if k == j then 0 else shifted_bit b j)
  unfolding sub_bit_row
  sub_bit_lem j hj one =
      let row = row_of sub_bit_row b k sub_bit_table hb hk in
      let bits = or_right _ _ (and_right _ _ row) (==_ne _ _ (λ e. one_ne (sym one ∙ e))) in
      (==_iff _ _).0 (holds_to_lem _ 8 bits j hj)

  pub sub_bit-IsByte : IsByte (sub_bit b k)
  unfolding sub_bit_row
  sub_bit-IsByte =
      let row = row_of sub_bit_row b k sub_bit_table hb hk in ltb→lt _ _ (and_left _ _ row)

  pub and_bit_lem : and_bit b k ≡ (shifted_bit b k == 1)
  unfolding and_bit_row
  and_bit_lem = and_bit_cases _ _ (row_of and_bit_row b k and_bit_table hb hk)

-- `bytes[i / 8] |= 1 << (i % 8)`, `bytes[i / 8] -= 1 << (i % 8)` and `bytes[i / 8] >> (i % 8) & 1`.
-- Past the end of the array the source's behaviour is undefined; here nothing is written there.
abbrev pub bit_at : List ℕ → ℕ → ℕ
bit_at bytes i = shifted_bit (get_or bytes (i / 8) 0) (i % 8)

abbrev pub or_bit_at : List ℕ → ℕ → List ℕ
or_bit_at bytes i = set bytes (i / 8) (or_bit (get_or bytes (i / 8) 0) (i % 8))

abbrev pub sub_bit_at : List ℕ → ℕ → List ℕ
sub_bit_at bytes i = set bytes (i / 8) (sub_bit (get_or bytes (i / 8) 0) (i % 8))

get_or-IsByte : (bytes : List ℕ) (i : ℕ) → All IsByte bytes → IsByte (get_or bytes i 0)
get_or-IsByte bytes i h = All-get_or IsByte bytes i 0 h (omega arith)

-- An update of one byte that changes one bit of it changes one bit of the array.
update_bit :
    (bytes : List ℕ) (i j v w : ℕ)
    → i / 8 < length bytes
    → ((k : ℕ)
        → k < 8
        → shifted_bit v k ≡ (if i % 8 == k then w else shifted_bit (get_or bytes (i / 8) 0) k))
    → bit_at (set bytes (i / 8) v) j ≡ (if i == j then w else bit_at bytes j)
update_bit bytes i j v w h bits = elim (ℕ_discrete (i / 8) (j / 8)) [
  | yes same ↦
      rw (← same, get_or-set_self bytes (i / 8) v 0 h, bits (j % 8) (omega arith))
        (ap (λ (t : Bool). if t then w else shifted_bit (get_or bytes (i / 8) 0) (j % 8))
          (same_digit same))
  | no differ ↦ rw (
    get_or-set_ne bytes (i / 8) (j / 8) v 0 differ,
    ==_ne i j (λ e. differ (ap (λ (t : ℕ). t / 8) e)),
  )
]
  where
    same_digit : i / 8 ≡ j / 8 → (i % 8 == j % 8) ≡ (i == j)
    same_digit e = ground arith

module _ (bytes : List ℕ) (i : ℕ) (hb : All IsByte bytes) where
  pub bit_at-or_bit_at :
      (j : ℕ)
      → i / 8 < length bytes
      → bit_at (or_bit_at bytes i) j ≡ (if i == j then 1 else bit_at bytes j)
  bit_at-or_bit_at j h =
      update_bit bytes i j _ 1 h
        (or_bit_lem _ (i % 8) (get_or-IsByte bytes (i / 8) hb) (omega arith))

  pub bit_at-sub_bit_at :
      (j : ℕ)
      → i / 8 < length bytes
      → bit_at bytes i ≡ 1
      → bit_at (sub_bit_at bytes i) j ≡ (if i == j then 0 else bit_at bytes j)
  bit_at-sub_bit_at j h one =
      update_bit bytes i j _ 0 h
        (λ k hk. sub_bit_lem _ (i % 8) (get_or-IsByte bytes (i / 8) hb) (omega arith) k hk one)

  pub or_bit_at-IsByte : All IsByte (or_bit_at bytes i)
  or_bit_at-IsByte =
      All-set IsByte bytes (i / 8) _ hb
        (or_bit-IsByte _ (i % 8) (get_or-IsByte bytes (i / 8) hb) (omega arith))

  pub sub_bit_at-IsByte : All IsByte (sub_bit_at bytes i)
  sub_bit_at-IsByte =
      All-set IsByte bytes (i / 8) _ hb
        (sub_bit-IsByte _ (i % 8) (get_or-IsByte bytes (i / 8) hb) (omega arith))

  pub and_bit_at : and_bit (get_or bytes (i / 8) 0) (i % 8) ≡ (bit_at bytes i == 1)
  and_bit_at = and_bit_lem _ (i % 8) (get_or-IsByte bytes (i / 8) hb) (omega arith)
