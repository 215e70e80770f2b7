-- ===== src/Storage/Disk/Extents.antt =====
-- The extents of the file and their bitmaps (storage/disk_manager.cpp).
use wslproject.Base.{
  ℕ, zero, ◌+◌, ◌^◌, ◌*◌, ap, leb, lt→ltb, lt→leb, leb→le, false, List, ◌==◌, ==_ne, if◌then◌else◌,
  ◌/◌, ◌%◌, ◌≤◌, ◌<◌, ◌≡◌, refl, sym, ◌∙◌, ok, ltb, length, get_or, arith, inl, inr, Bool-cases,
  length-replicate, get_or-replicate,
}
use wslproject.Pages.Bitmap.{BitmapPage, is_page_free}
use wslproject.Pages.Bitmap.Laws
use wslproject.Pages.Bitmap.Laws.{FlipsTo, zero-IsValid}
use wslproject.Pages.Bitmap.Memory.{
  write_bitmap, zero_bitmap, read_bitmap-write_bitmap, write_bitmap-zero,
}
use wslproject.Storage.Disk.{
  DiskManager, size_after, new_disk, bitmap_address, bitmap_size, zero_page, read_physical_page,
  is_page_free_at,
}
use wslproject.Storage.Disk.Addresses.{bitmap_address-eq, extent_of-eq, offset_of-eq}

-- The extents whose bitmaps lie in the first 2 GB of the file, where ReadPhysicalPage can reach them.
abbrev pub max_extents : ℕ
max_extents = 16

-- The file is shorter than 2 GB, and what lies behind its end reads as zeros.
pub record Whole (d : DiskManager) : Type 0 where
  pub short : d.file_size < 2 ^ 31
  pub beyond : (p : ℕ) → d.file_size ≤ p * 4096 → d.file p ≡ zero_page

pub read_physical_page-eq :
    (d : DiskManager) (id : ℕ)
    → Whole d
    → id * 4096 < 2 ^ 31
    → read_physical_page d id ≡ ok (d.file id)
unfolding read_physical_page
read_physical_page-eq d id w h =
    let size : d.file_size % 2 ^ 32 ≡ d.file_size = omega (arith, w.short) in
    let near : leb (2 ^ 31) d.file_size ≡ false = lt→leb (2 ^ 31) d.file_size w.short in
    rw (lt→ltb (id * 4096) (2 ^ 31) h, size, near)
      (elim (Bool-cases (leb d.file_size (id * 4096))) [
        | inl past ↦ rw past (ap ok (sym (w.beyond id (leb→le d.file_size (id * 4096) past))))
        | inr before ↦ rw before refl
      ])

-- A write in the first 2 GB keeps it so.
pub Whole-write :
    (d d' : DiskManager) (id : ℕ) (page_data : List ℕ)
    → Whole d
    → 4096 * (id + 1) < 2 ^ 31
    → ((p : ℕ) → d'.file p ≡ (if p == id then page_data else d.file p))
    → d'.file_size ≡ size_after d.file_size id
    → Whole d'
Whole-write d d' id page_data w h written size =
    let longer : d.file_size ≤ size_after d.file_size id = ground arith in
    let covers : 4096 * (id + 1) ≤ size_after d.file_size id = ground arith in
    record {
      short = rw size (ground (arith, w.short));
      beyond = λ p far.
          let ne : (p ≡ id → ⊥) = (λ e. omega arith) in
          rw (written p, ==_ne p id ne) (w.beyond p (omega arith));
    }

-- The bitmap of extent `e` in the file, which is shorter than 2 GB, is `b`.
pub record Holds (d : DiskManager) (e : ℕ) (b : BitmapPage) : Type 0 where
  pub whole : Whole d
  pub stored : d.file (bitmap_address e) ≡ write_bitmap b
  pub valid : Laws.IsValid b
  pub sized : length b.bytes ≡ 4088

-- The file is shorter than 2 GB. Every extent of the meta page has a valid bitmap, whose counter is that
-- of the meta page; behind them the file has no bitmap yet.
pub record IsValid (d : DiskManager) : Type 0 where
  pub whole : Whole d
  pub few : d.meta_data.num_extents ≤ max_extents
  pub room : length d.meta_data.extent_used_page ≡ 1022
  pub live :
      (e : ℕ)
      → e < d.meta_data.num_extents
      → (b : BitmapPage) × Holds d e b
        × (get_or d.meta_data.extent_used_page e 0 ≡ b.page_allocated)
  pub blank :
      (e : ℕ)
      → d.meta_data.num_extents ≤ e
      → e < max_extents
      → (d.file (bitmap_address e) ≡ zero_page) × (get_or d.meta_data.extent_used_page e 0 ≡ 0)

zero_bitmap-IsValid : Laws.IsValid zero_bitmap
zero_bitmap-IsValid = zero-IsValid 4088 (omega arith) (omega arith)

pub zero-Holds :
    (d : DiskManager) (e : ℕ)
    → Whole d
    → d.file (bitmap_address e) ≡ zero_page
    → Holds d e zero_bitmap
zero-Holds d e w h = record {
  whole = w;
  stored = h ∙ sym write_bitmap-zero;
  valid = zero_bitmap-IsValid;
  sized = length-replicate 4088 zero;
}

-- The manager of a new file is valid.
pub new_disk-IsValid : IsValid new_disk
new_disk-IsValid = record {
  whole = record { short = omega arith; beyond = λ p h. refl };
  few = omega arith;
  room = length-replicate 1022 zero;
  live = λ e h. absurd (omega arith);
  blank = λ e lo hi. (refl, get_or-replicate 1022 e zero);
}

-- Each extent within reach has a bitmap, be it of zeros.
pub extent :
    (d : DiskManager) (e : ℕ)
    → IsValid d
    → e < max_extents
    → (b : BitmapPage) × Holds d e b × (get_or d.meta_data.extent_used_page e 0 ≡ b.page_allocated)
extent d e v h = elim (Bool-cases (ltb e d.meta_data.num_extents)) [
  | inl old ↦ v.live e (ground arith)
  | inr new ↦
      let none_yet = v.blank e (ground arith) h in
      (zero_bitmap, zero-Holds d e v.whole none_yet.0, none_yet.1)
]

pub read_physical_page-Holds :
    (d : DiskManager) (e : ℕ) (b : BitmapPage)
    → Holds d e b
    → e < max_extents
    → read_physical_page d (bitmap_address e) ≡ ok (write_bitmap b)
read_physical_page-Holds d e b h small =
    read_physical_page-eq d (bitmap_address e) h.whole
      (omega (arith, bitmap_address-eq e (omega arith)))
    ∙ ap ok h.stored

pub is_page_free_at-Holds :
    (d : DiskManager) (l : ℕ) (b : BitmapPage)
    → Holds d (l / bitmap_size) b
    → l < max_extents * bitmap_size
    → is_page_free_at d l ≡ ok (is_page_free b (l % bitmap_size))
unfolding is_page_free_at
is_page_free_at-Holds d l b h small =
    rw
      (
        extent_of-eq l (omega arith),
        offset_of-eq l (omega arith),
        read_physical_page-Holds d (l / bitmap_size) b h (omega arith),
        read_bitmap-write_bitmap b h.valid,
      )
      refl
