-- ===== src/Pages/Bitmap/Bits.antt =====
-- Counting the bits of the bitmap, and its linear search (page/bitmap_page.cpp).
use wslproject.Base.{
  ℕ, zero, suc, ◌+◌, ◌/◌, ◌%◌, ◌≤◌, ◌<◌, ◌≡◌, refl, List, none, some, ◌==◌, if◌then◌else◌, arith,
  ◌⊎◌, inl, inr, Bool-cases,
}
use wslproject.Base.Bits.{bit_at}
use wslproject.Pages.Bitmap.{search_free, is_page_free_low}

-- How many of the pages 0 … k-1 have the bit 1.
unfoldable pub count_bits : (ℕ → ℕ) → ℕ → ℕ
count_bits f zero = 0
count_bits f (suc k) = f k + count_bits f k

module _ (f g : ℕ → ℕ) (i v : ℕ) (only : (j : ℕ) → g j ≡ (if i == j then v else f j)) where
  count_bits_before : (k : ℕ) → k ≤ i → count_bits g k ≡ count_bits f k
  unfolding count_bits
  count_bits_before zero h = refl
  count_bits_before (suc k) h = ground (arith, only k, count_bits_before k)

  -- One bit that changes moves the count by as much.
  pub count_bits_change : (k : ℕ) → i < k → count_bits g k + f i ≡ count_bits f k + v
  unfolding count_bits
  count_bits_change zero h = absurd (omega arith)
  count_bits_change (suc k) h = elim (Bool-cases (i == k)) [
    | inl e ↦ ground (arith, only k, count_bits_before k)
    | inr e ↦ ground (arith, only k, count_bits_change k)
  ]

pub count_bits_full : (f : ℕ → ℕ) (k : ℕ) → ((j : ℕ) → j < k → f j ≡ 1) → count_bits f k ≡ k
unfolding count_bits
count_bits_full f zero h = refl
count_bits_full f (suc k) h =
    omega (arith, h k (omega arith), count_bits_full f k (λ j hj. h j (omega arith)))

pub count_bits_zero : (f : ℕ → ℕ) (k : ℕ) → ((j : ℕ) → f j ≡ 0) → count_bits f k ≡ 0
unfolding count_bits
count_bits_zero f zero h = refl
count_bits_zero f (suc k) h = omega (arith, h k, count_bits_zero f k h)

pub count_bits-le : (f : ℕ → ℕ) (k : ℕ) → ((j : ℕ) → f j ≤ 1) → count_bits f k ≤ k
unfolding count_bits
count_bits-le f zero h = omega arith
count_bits-le f (suc k) h = omega (arith, h k, count_bits-le f k h)

-- A bit that is 0 is not counted.
pub count_bits-lt :
    (f : ℕ → ℕ) (k i : ℕ) → ((j : ℕ) → f j ≤ 1) → i < k → f i ≡ 0 → count_bits f k < k
unfolding count_bits
count_bits-lt f zero i h hi e = absurd (omega arith)
count_bits-lt f (suc k) i h hi e = elim (Bool-cases (i == k)) [
  | inl s ↦ ground (arith, count_bits-le f k h)
  | inr d ↦ ground (arith, h k, count_bits-lt f k i h)
]

-- A bit that is 1 is counted.
pub count_bits-pos : (f : ℕ → ℕ) (k i : ℕ) → i < k → f i ≡ 1 → 0 < count_bits f k
unfolding count_bits
count_bits-pos f zero i hi e = absurd (omega arith)
count_bits-pos f (suc k) i hi e = elim (Bool-cases (i == k)) [
  | inl s ↦ ground arith
  | inr d ↦ ground (arith, count_bits-pos f k i)
]

pub bit_at-le : (bytes : List ℕ) (i : ℕ) → bit_at bytes i ≤ 1
bit_at-le bytes i = omega arith

-- The search finds a free page in its range, or there is none.
pub search_free_lem :
    (i k : ℕ) (bytes : List ℕ)
    → ((j : ℕ) × (search_free i k bytes ≡ some j) × (j < i + k) × (bit_at bytes j ≡ 0))
      ⊎ ((search_free i k bytes ≡ none) × ((j : ℕ) → i ≤ j → j < i + k → bit_at bytes j ≡ 1))
unfolding search_free
search_free_lem i zero bytes = inr (refl, λ j h g. absurd (omega arith))
search_free_lem i (suc k) bytes = elim (Bool-cases (is_page_free_low bytes (i / 8) (i % 8))) [
  | inl e ↦ inl (i, ground arith, omega arith, ground arith)
  | inr e ↦ elim (search_free_lem (suc i) k bytes) [
    | inl (j, a, b, c) ↦ inl (j, ground arith, omega arith, c)
    | inr (a, b) ↦ inr (
      ground arith,
      λ j h g. elim (Bool-cases (i == j)) [
        | inl s ↦ ground (arith, bit_at-le bytes i)
        | inr d ↦ b j (ground arith) (omega arith)
      ],
    )
  ]
]
