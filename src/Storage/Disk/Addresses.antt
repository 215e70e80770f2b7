-- ===== src/Storage/Disk/Addresses.antt =====
-- Where logical pages lie in the file (MapPageId of storage/disk_manager.cpp).
use wslproject.Base.{ℕ, ◌+◌, ◌*◌, ◌/◌, ◌%◌, ◌^◌, ◌<◌, ◌≡◌, ◌≢◌, arith}
use wslproject.Storage.Disk.{
  map_page_id, bitmap_address, bitmap_size, to_size_t, extent_of, offset_of,
}

to_size_t-eq : (l : ℕ) → l < 2 ^ 31 → to_size_t l ≡ l
to_size_t-eq l h = ground arith

pub map_page_id-eq : (l : ℕ) → l < 2 ^ 31 → map_page_id l ≡ l / bitmap_size + l + 2
unfolding map_page_id
map_page_id-eq l h = ground arith

pub extent_of-eq : (l : ℕ) → l < 2 ^ 31 → extent_of l ≡ l / bitmap_size
extent_of-eq l h = ground arith

pub offset_of-eq : (l : ℕ) → l < 2 ^ 31 → offset_of l ≡ l % bitmap_size
offset_of-eq l h = ground arith

pub bitmap_address-eq : (e : ℕ) → e < 2 ^ 16 → bitmap_address e ≡ (bitmap_size + 1) * e + 1
unfolding bitmap_address
bitmap_address-eq e h = omega arith

-- MapPageId computes, for every page id that is not negative, the place of the page in extents of
-- BITMAP_SIZE pages: behind the meta page, the extents before its own with their bitmaps, its extent's
-- bitmap and the pages before it there. BITMAP_SIZE is 8 * (PAGE_SIZE - 8), where the comment of
-- disk_manager.h has PAGE_SIZE * 8 pages in an extent.
pub map_page_id-layout :
    (l : ℕ)
    → l < 2 ^ 31
    → map_page_id l ≡ 1 + (bitmap_size + 1) * (l / bitmap_size) + 1 + l % bitmap_size
map_page_id-layout l h = omega (arith, map_page_id-eq l h)

-- Different logical pages lie at different physical pages, and none at the meta page or at the bitmap
-- of an extent.
pub map_page_id-injective :
    (l m e : ℕ)
    → l < 2 ^ 31
    → m < 2 ^ 31
    → e < 2 ^ 16
    → (map_page_id l ≡ map_page_id m → l ≡ m)
      × (map_page_id l ≢ 0)
      × (map_page_id l ≢ bitmap_address e)
map_page_id-injective l m e hl hm he = (
  (λ p. omega (arith, map_page_id-eq l hl, map_page_id-eq m hm)),
  (λ p. omega (arith, map_page_id-eq l hl)),
  (λ p. omega (arith, map_page_id-eq l hl, bitmap_address-eq e he)),
)
