-- ===== src/Pages/Bitmap.antt =====
-- page/bitmap_page.cpp and include/page/bitmap_page.h: the page that says which pages of an extent
-- are allocated. The template's PageSize is the length of `bytes` (MAX_CHARS) and 8 more.
pub mod Bits
pub mod Laws
pub mod Memory
use wslproject.Base.{
  ℕ, zero, suc, ◌+◌, ◌-◌, ◌*◌, ◌/◌, ◌%◌, ◌^◌, Bool, true, false, not, List, [], ◌∷◌, Option, none,
  some, ◌==◌, ltb, if◌then◌else◌, length, get_or,
}
use wslproject.Base.Bits.{shifted_bit, or_bit_at, sub_bit_at}

pub record BitmapPage : Type 0 where
  pub page_allocated : ℕ
  pub next_free_page : ℕ
  pub bytes : List ℕ

-- GetMaxSupportedSize
abbrev pub max_supported_size : BitmapPage → ℕ
max_supported_size b = 8 * length b.bytes

-- IsPageFreeLow
unfoldable pub is_page_free_low : List ℕ → ℕ → ℕ → Bool
is_page_free_low bytes byte_index bit_index = shifted_bit (get_or bytes byte_index 0) bit_index == 0

-- IsPageFree
abbrev pub is_page_free : BitmapPage → ℕ → Bool
is_page_free b page_offset = is_page_free_low b.bytes (page_offset / 8) (page_offset % 8)

-- The linear search of AllocatePage, with `k` rounds left at page `i`.
unfoldable pub search_free : ℕ → ℕ → List ℕ → Option ℕ
unfolding is_page_free_low
search_free i zero bytes = none
search_free i (suc k) bytes =
    let rest = search_free (suc i) k bytes in
    if is_page_free_low bytes (i / 8) (i % 8) then some i else rest

-- `next_free_page_` after the search; the loop does not run at all if the extent is full.
unfoldable pub next_free : ℕ → ℕ → List ℕ → ℕ
unfolding search_free
next_free allocated old bytes =
    if ltb allocated (8 * length bytes)
    then elim (search_free 0 (8 * length bytes) bytes) [ none ↦ old | some i ↦ i ]
    else old

-- AllocatePage: the page after, `page_offset`, and the result.
unfoldable pub allocate_page : BitmapPage → BitmapPage × ℕ × Bool
unfolding is_page_free_low
allocate_page b =
    let page_offset = b.next_free_page in
    if is_page_free b page_offset
    then (
      record {
        page_allocated = (b.page_allocated + 1) % 2 ^ 32;
        next_free_page =
            next_free ((b.page_allocated + 1) % 2 ^ 32) page_offset (or_bit_at b.bytes page_offset);
        bytes = or_bit_at b.bytes page_offset;
      },
      page_offset,
      true,
    )
    else (b, page_offset, false)

-- DeAllocatePage
unfoldable pub deallocate_page : BitmapPage → ℕ → BitmapPage × Bool
unfolding is_page_free_low
deallocate_page b page_offset =
    if not (is_page_free b page_offset)
    then (
      record {
        page_allocated = (b.page_allocated + 2 ^ 32 - 1) % 2 ^ 32;
        next_free_page = page_offset;
        bytes = sub_bit_at b.bytes page_offset;
      },
      true,
    )
    else (b, false)
