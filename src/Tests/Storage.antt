-- ===== src/Tests/Storage.antt =====
-- The disk manager on a new file, and after one page of it is taken (storage/disk_manager.cpp).
use wslproject.Base.{
  ℕ, ◌+◌, ◌*◌, ◌/◌, ◌%◌, ◌<◌, ◌≡◌, ◌≢◌, refl, sym, ap, ◌∙◌, true, false, [], ◌∷◌, replicate, set,
  Result, ok, err, ◌⊎◌, arith,
}
use mathlib.Core.Path.{subst}
use wslproject.Base.Bits.{or_bit}
use wslproject.Pages.Bitmap
use wslproject.Pages.Bitmap.{BitmapPage, is_page_free_low, next_free, search_free}
use wslproject.Storage.Disk.{
  DiskManager, new_disk, bitmap_size, bitmap_address, map_page_id, is_page_free_at, read_page,
  write_page, allocate_page, deallocate_page, find_extent, get_extent_used_page, allocate_new,
  write_physical_page, increment_used,
}
use wslproject.Storage.Disk.Addresses.{map_page_id-layout}
use wslproject.Storage.Disk.Extents.{IsValid, max_extents, new_disk-IsValid}
use wslproject.Storage.Disk.Contents.{read_page-write_page}
use wslproject.Storage.Disk.Changes.{Marks, rewritten}
use wslproject.Storage.Disk.Allocation.{Takes, allocate_page-Marks}
use wslproject.Storage.Disk.Release.{deallocate_page-Marks}

abbrev one_bitmap : BitmapPage
one_bitmap = record { page_allocated = 1; next_free_page = 1; bytes = set (replicate 4088 0) 0 1 }

abbrev pub one_disk : DiskManager
one_disk = rewritten new_disk 0 one_bitmap (record {
  num_allocated_pages = 1;
  num_extents = 1;
  extent_used_page = set (replicate 1022 0) 0 1;
})

one_disk-eq : allocate_page new_disk ≡ ok (one_disk, 0)
unfolding allocate_page find_extent get_extent_used_page allocate_new write_physical_page
    increment_used bitmap_address Bitmap.allocate_page is_page_free_low next_free search_free or_bit
one_disk-eq = refl

pair_or : DiskManager × ℕ → Result (DiskManager × ℕ) → DiskManager × ℕ
pair_or x (ok y) = y
pair_or x (err e) = x

marked :
    (d d1 : DiskManager) (i : ℕ) (r : Result (DiskManager × ℕ))
    → Takes d r
    → r ≡ ok (d1, i)
    → Marks false d i d1
unfolding pair_or
marked d d1 i r (d', id, e, _, _, marks) h =
    subst (λ (x : DiskManager × ℕ). Marks false d x.1 x.0) (ap (pair_or (d, 0)) (sym e ∙ h)) marks

one_disk-Marks : Marks false new_disk 0 one_disk
one_disk-Marks =
    marked new_disk one_disk 0 (allocate_page new_disk)
      (allocate_page-Marks new_disk new_disk-IsValid (omega arith)) one_disk-eq

pub one_disk-IsValid : IsValid one_disk
one_disk-IsValid = one_disk-Marks.2

pub one_disk-in_use : is_page_free_at one_disk 0 ≡ ok false
one_disk-in_use = one_disk-Marks.0 0 (omega arith)

allocate_page-Marks_example : Takes new_disk (allocate_page new_disk)
allocate_page-Marks_example = allocate_page-Marks new_disk new_disk-IsValid (omega arith)

deallocate_page-Marks_example :
    ((is_page_free_at one_disk 0 ≡ ok true) × (deallocate_page one_disk 0 ≡ ok one_disk))
    ⊎ ((d' : DiskManager) × (is_page_free_at one_disk 0 ≡ ok false)
        × (deallocate_page one_disk 0 ≡ ok d')
        × Marks true one_disk 0 d')
deallocate_page-Marks_example = deallocate_page-Marks one_disk 0 one_disk-IsValid (omega arith)

read_page-write_page_example :
    (d' : DiskManager) × (write_page one_disk 0 (7 ∷ []) ≡ ok d')
    × (read_page d' 0 ≡ ok (7 ∷ []))
    × ((m : ℕ)
        → m < max_extents * bitmap_size
        → (m ≢ 0 → read_page d' m ≡ read_page one_disk m)
          × (is_page_free_at d' m ≡ is_page_free_at one_disk m))
    × IsValid d'
read_page-write_page_example =
    read_page-write_page one_disk 0 (7 ∷ []) one_disk-IsValid (omega arith)

map_page_id-layout_example :
    map_page_id 32704 ≡ 1 + (bitmap_size + 1) * (32704 / bitmap_size) + 1 + 32704 % bitmap_size
map_page_id-layout_example = map_page_id-layout 32704 (omega arith)
