-- ===== src/Storage/Disk/Changes.antt =====
-- What AllocatePage and DeAllocatePage change in the file and the meta page (storage/disk_manager.cpp).
use wslproject.Base.{
  ℕ, ◌+◌, ◌*◌, ◌^◌, ◌<◌, ◌≡◌, refl, ap, Bool, List, ok, ◌==◌, lt→ltb, if◌then◌else◌, length, get_or,
  set, arith,
}
use wslproject.Pages.Bitmap.{BitmapPage}
use wslproject.Pages.Bitmap.Memory.{write_bitmap}
use wslproject.Storage.Disk.{
  DiskManager, size_after, DiskFileMetaPage, bitmap_address, bitmap_size, is_page_free_at,
  map_page_id, increment_used, decrement_used,
}
use wslproject.Storage.Disk.Addresses.{bitmap_address-eq}
use wslproject.Storage.Disk.Extents.{Whole, Whole-write, IsValid, max_extents}

-- The page `id` of the file becomes free or allocated; no other page changes its state, no data page
-- its content, and the manager stays valid.
abbrev pub Marks : Bool → DiskManager → ℕ → DiskManager → Type 0
Marks free d id d' =
    ((m : ℕ)
      → m < max_extents * bitmap_size
      → is_page_free_at d' m ≡ (if id == m then ok free else is_page_free_at d m))
    × ((l : ℕ) → l < 2 ^ 31 → d'.file (map_page_id l) ≡ d.file (map_page_id l))
    × IsValid d'

-- The manager after the bitmap of an extent is written, with the new meta data.
abbrev pub rewritten : DiskManager → ℕ → BitmapPage → DiskFileMetaPage → DiskManager
rewritten d e b meta = record {
  file = λ p. if p == bitmap_address e then write_bitmap b else d.file p;
  file_size = size_after d.file_size (bitmap_address e);
  meta_data = meta;
}

pub Whole-rewritten :
    (d : DiskManager) (e : ℕ) (b : BitmapPage) (meta : DiskFileMetaPage)
    → Whole d
    → e < max_extents
    → Whole (rewritten d e b meta)
Whole-rewritten d e b meta w he =
    Whole-write d (rewritten d e b meta) (bitmap_address e) (write_bitmap b) w
      (omega (arith, bitmap_address-eq e (omega arith))) (λ p. refl) refl

pub increment_used-eq :
    (used : List ℕ) (e n m : ℕ)
    → e < length used
    → get_or used e 0 ≡ n
    → m ≡ n + 1
    → m < 2 ^ 32
    → increment_used used e ≡ ok (set used e m)
unfolding increment_used
increment_used-eq used e n m h count next small =
    rw (lt→ltb e (length used) h, count) (ap (λ (t : ℕ). ok (set used e t)) (omega arith))

pub decrement_used-eq :
    (used : List ℕ) (e n m : ℕ)
    → e < length used
    → get_or used e 0 ≡ n
    → m + 1 ≡ n
    → n < 2 ^ 32
    → decrement_used used e ≡ ok (set used e m)
unfolding decrement_used
decrement_used-eq used e n m h count next small =
    rw (lt→ltb e (length used) h, count) (ap (λ (t : ℕ). ok (set used e t)) (omega arith))
