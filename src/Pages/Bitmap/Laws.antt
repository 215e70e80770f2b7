-- ===== src/Pages/Bitmap/Laws.antt =====
-- Allocation and release of pages in an extent (page/bitmap_page.cpp).
use wslproject.Base.{
  ℕ, zero, ◌+◌, ◌-◌, ◌*◌, ◌/◌, ◌%◌, ◌^◌, ◌≤◌, ◌<◌, ◌≡◌, refl, sym, ◌∙◌, Bool, true, false, List,
  ◌==◌, ltb, if◌then◌else◌, length, length-set, arith, ◌⊎◌, inl, inr, Bool-cases, All, replicate,
  length-replicate, get_or-replicate, All-replicate,
}
use wslproject.Base.Bits.{
  bit_at, or_bit_at, sub_bit_at, bit_at-or_bit_at, bit_at-sub_bit_at, or_bit_at-IsByte,
  sub_bit_at-IsByte,
}
use wslproject.Base.Bytes.{IsByte}
use wslproject.Pages.Bitmap.{
  BitmapPage, max_supported_size, is_page_free, is_page_free_low, next_free, allocate_page,
  deallocate_page,
}
use wslproject.Pages.Bitmap.Bits.{
  count_bits, count_bits_change, count_bits_full, count_bits_zero, count_bits-lt, count_bits-le,
  count_bits-pos, bit_at-le, search_free_lem,
}

-- The counter is the number of bits that are 1, and as long as a page is free, the next one to be
-- given out is free.
pub record IsValid (b : BitmapPage) : Type 0 where
  pub bytes_valid : All IsByte b.bytes
  pub fits_u32 : max_supported_size b < 2 ^ 32
  pub counted : b.page_allocated ≡ count_bits (bit_at b.bytes) (max_supported_size b)
  pub within : b.next_free_page < max_supported_size b
  pub ready : b.page_allocated < max_supported_size b → bit_at b.bytes b.next_free_page ≡ 0

pub is_page_free-bit : (b : BitmapPage) (i : ℕ) → is_page_free b i ≡ (bit_at b.bytes i == 0)
unfolding is_page_free_low
is_page_free-bit b i = refl

-- The page that `next_free` chooses is in range, and free unless all are allocated.
next_free_lem :
    (n old : ℕ) (bytes : List ℕ)
    → n ≡ count_bits (bit_at bytes) (8 * length bytes)
    → old < 8 * length bytes
    → (next_free n old bytes < 8 * length bytes)
      × (n < 8 * length bytes → bit_at bytes (next_free n old bytes) ≡ 0)
unfolding next_free
next_free_lem n old bytes e h = elim (Bool-cases (ltb n (8 * length bytes))) [
  | inr full ↦ rw full (h, λ more. absurd (ground arith))
  | inl room ↦ elim (search_free_lem 0 (8 * length bytes) bytes) [
    | inl (j, a, b, c) ↦ rw (room, a) (omega arith, λ _. c)
    | inr (a, all) ↦ absurd (
        ground (
          arith,
          count_bits_full (bit_at bytes) (8 * length bytes)
              (λ j hj. all j (omega arith) (omega arith)),
        ))
  ]
]

-- What changes when page `i` gets the bit `v`, and nothing else does.
abbrev pub FlipsTo : Bool → BitmapPage → ℕ → BitmapPage → Type 0
FlipsTo free b i b' =
    (length b'.bytes ≡ length b.bytes)
    × ((j : ℕ) → is_page_free b' j ≡ (if i == j then free else is_page_free b j))

length-or_bit_at : (bytes : List ℕ) (i : ℕ) → length (or_bit_at bytes i) ≡ length bytes
length-or_bit_at bytes i = length-set bytes (i / 8) _

length-sub_bit_at : (bytes : List ℕ) (i : ℕ) → length (sub_bit_at bytes i) ≡ length bytes
length-sub_bit_at bytes i = length-set bytes (i / 8) _

module _ (b : BitmapPage) (v : IsValid b) (i : ℕ) (hi : i < max_supported_size b) where
  -- The count of bits after one more is set, and after one is cleared.
  count-or_bit_at :
      bit_at b.bytes i ≡ 0
      → count_bits (bit_at (or_bit_at b.bytes i)) (8 * length (or_bit_at b.bytes i))
        ≡ b.page_allocated + 1
  count-or_bit_at free = rw (length-or_bit_at b.bytes i) (
      omega (
        arith,
        v.counted,
        count_bits_change (bit_at b.bytes) (bit_at (or_bit_at b.bytes i)) i 1
            (λ j. bit_at-or_bit_at b.bytes i v.bytes_valid j (omega arith)) (max_supported_size b)
            hi,
      ))

  count-sub_bit_at :
      bit_at b.bytes i ≡ 1
      → count_bits (bit_at (sub_bit_at b.bytes i)) (8 * length (sub_bit_at b.bytes i)) + 1
        ≡ b.page_allocated
  count-sub_bit_at taken = rw (length-sub_bit_at b.bytes i) (
      omega (
        arith,
        v.counted,
        count_bits_change (bit_at b.bytes) (bit_at (sub_bit_at b.bytes i)) i 0
            (λ j. bit_at-sub_bit_at b.bytes i v.bytes_valid j (omega arith) taken)
            (max_supported_size b) hi,
      ))

  room_of_free : bit_at b.bytes i ≡ 0 → b.page_allocated < max_supported_size b
  room_of_free free = omega (
    arith,
    v.counted,
    count_bits-lt (bit_at b.bytes) (max_supported_size b) i (bit_at-le b.bytes) hi free,
  )

  some_of_taken : bit_at b.bytes i ≡ 1 → 0 < b.page_allocated
  some_of_taken taken =
      omega (arith, v.counted, count_bits-pos (bit_at b.bytes) (max_supported_size b) i hi taken)

allocated-le : (b : BitmapPage) → IsValid b → b.page_allocated ≤ max_supported_size b
allocated-le b v =
    omega
      (arith, v.counted, count_bits-le (bit_at b.bytes) (max_supported_size b) (bit_at-le b.bytes))

-- On a valid bitmap AllocatePage fails, and changes nothing, exactly if every page is allocated.
-- Otherwise it returns a page that was free, which is then the only one that is free no more; the
-- counter goes up by one, and the bitmap is valid again.
pub allocate_page-FlipsTo :
    (b : BitmapPage)
    → IsValid b
    → ((b.page_allocated ≡ max_supported_size b) × (allocate_page b ≡ (b, b.next_free_page, false)))
      ⊎ ((b' : BitmapPage) × (i : ℕ) × (allocate_page b ≡ (b', i, true))
          × (b.page_allocated < max_supported_size b)
          × (i < max_supported_size b)
          × (is_page_free b i ≡ true)
          × FlipsTo false b i b'
          × (b'.page_allocated ≡ b.page_allocated + 1)
          × IsValid b')
unfolding allocate_page
allocate_page-FlipsTo b v =
    let i : ℕ = b.next_free_page in
    let bytes : List ℕ = or_bit_at b.bytes i in
    let n : ℕ = (b.page_allocated + 1) % 2 ^ 32 in
    let size = length-or_bit_at b.bytes i in
    elim (Bool-cases (is_page_free b i)) [
      | inr taken ↦ inl (ground (arith, allocated-le b v), ground arith)
      | inl free ↦
          let clear : bit_at b.bytes i ≡ 0 = ground arith in
          let room = room_of_free b v i v.within clear in
          let grown : n ≡ b.page_allocated + 1 = omega (arith, v.fits_u32) in
          let count = grown ∙ sym (count-or_bit_at b v i v.within clear) in
          let next = next_free_lem n i bytes count (omega (arith, v.within)) in
          inr (
            record { page_allocated = n; next_free_page = next_free n i bytes; bytes = bytes },
            i,
            ground arith,
            room,
            v.within,
            free,
            (
              size,
              λ j. rw (bit_at-or_bit_at b.bytes i v.bytes_valid j (omega arith)) (ground arith),
            ),
            grown,
            record {
              bytes_valid = or_bit_at-IsByte b.bytes i v.bytes_valid;
              fits_u32 = omega (arith, v.fits_u32);
              counted = count;
              within = next.0;
              ready = next.1;
            },
          )
    ]

-- On a valid bitmap DeAllocatePage of a page of the extent fails, and changes nothing, exactly if the
-- page is free. Otherwise the page, and no other, becomes free, and is the next one to be given out;
-- the counter goes down by one, and the bitmap is valid again.
pub deallocate_page-FlipsTo :
    (b : BitmapPage) (i : ℕ)
    → IsValid b
    → i < max_supported_size b
    → ((is_page_free b i ≡ true) × (deallocate_page b i ≡ (b, false)))
      ⊎ ((b' : BitmapPage) × (deallocate_page b i ≡ (b', true))
          × (is_page_free b i ≡ false)
          × FlipsTo true b i b'
          × (b'.next_free_page ≡ i)
          × (b'.page_allocated + 1 ≡ b.page_allocated)
          × IsValid b')
unfolding deallocate_page
deallocate_page-FlipsTo b i v hi =
    let bytes : List ℕ = sub_bit_at b.bytes i in
    let n : ℕ = (b.page_allocated + 2 ^ 32 - 1) % 2 ^ 32 in
    let size = length-sub_bit_at b.bytes i in
    elim (Bool-cases (is_page_free b i)) [
      | inl free ↦ inl (free, ground arith)
      | inr taken ↦
          let set_bit : bit_at b.bytes i ≡ 1 = ground (arith, bit_at-le b.bytes i) in
          let count = count-sub_bit_at b v i hi set_bit in
          let shrunk : n + 1 ≡ b.page_allocated =
            omega (arith, v.fits_u32, some_of_taken b v i hi set_bit, allocated-le b v) in
          let flips =
            λ (j : ℕ). bit_at-sub_bit_at b.bytes i v.bytes_valid j (omega arith) set_bit in
          inr (
            record { page_allocated = n; next_free_page = i; bytes = bytes },
            ground arith,
            taken,
            (size, λ j. rw (flips j) (ground arith)),
            refl,
            shrunk,
            record {
              bytes_valid = sub_bit_at-IsByte b.bytes i v.bytes_valid;
              fits_u32 = omega (arith, v.fits_u32);
              counted = omega (arith, count);
              within = omega (arith, hi);
              ready = λ _. flips i ∙ ground arith;
            },
          )
    ]

zero_bits : (n j : ℕ) → bit_at (replicate n 0) j ≡ 0
zero_bits n j = rw (get_or-replicate n (j / 8) zero) (omega arith)

-- A page of zeros is a valid bitmap on which every page is free.
pub zero-IsValid :
    (n : ℕ)
    → 0 < n
    → 8 * n < 2 ^ 32
    → IsValid (record { page_allocated = 0; next_free_page = 0; bytes = replicate n 0 })
zero-IsValid n h small = record {
  bytes_valid = All-replicate IsByte n 0 (omega arith);
  fits_u32 = omega (arith, length-replicate n zero);
  counted = sym (count_bits_zero _ _ (zero_bits n));
  within = omega (arith, length-replicate n zero);
  ready = λ _. zero_bits n 0;
}

pub zero-is_page_free :
    (n i : ℕ)
    → is_page_free (record { page_allocated = 0; next_free_page = 0; bytes = replicate n 0 }) i
      ≡ true
unfolding is_page_free_low
zero-is_page_free n i = rw (zero_bits n i)

pub IsValid-u32 :
    (b : BitmapPage) → IsValid b → (b.page_allocated < 2 ^ 32) × (b.next_free_page < 2 ^ 32)
IsValid-u32 b v = (omega (arith, v.fits_u32, allocated-le b v), omega (arith, v.fits_u32, v.within))
