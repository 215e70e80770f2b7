-- ===== src/Storage/Disk/Contents.antt =====
-- Reading and writing the data pages of the file (storage/disk_manager.cpp).
use wslproject.Base.{
  ℕ, ◌*◌, ◌/◌, ◌^◌, ◌<◌, ◌≡◌, ◌≢◌, refl, sym, ap, ◌∙◌, false, List, ok, ◌==◌, ==_ne, ==_refl,
  lt→ltb, if◌then◌else◌, arith,
}
use wslproject.Pages.Bitmap.{BitmapPage}
use wslproject.Storage.Disk.{
  DiskManager, size_after, bitmap_address, bitmap_size, is_page_free_at, map_page_id, read_page,
  write_page, write_physical_page,
}
use wslproject.Storage.Disk.Addresses.{map_page_id-eq, map_page_id-injective}
use wslproject.Storage.Disk.Extents.{
  Whole, Whole-write, read_physical_page-eq, Holds, IsValid, max_extents, extent,
  is_page_free_at-Holds,
}

pub write_page-eq :
    (d : DiskManager) (l : ℕ) (page_data : List ℕ)
    → l < 2 ^ 31
    → write_page d l page_data
      ≡ ok (record d {
        file = λ p. if p == map_page_id l then page_data else d.file p;
        file_size = size_after d.file_size (map_page_id l);
      })
unfolding write_page write_physical_page
write_page-eq d l page_data h = rw (lt→ltb l (2 ^ 31) h) refl

pub read_page-eq :
    (d : DiskManager) (l : ℕ)
    → Whole d
    → l < max_extents * bitmap_size
    → read_page d l ≡ ok (d.file (map_page_id l))
unfolding read_page
read_page-eq d l w h =
    rw (lt→ltb l (2 ^ 31) (omega arith))
      (read_physical_page-eq d (map_page_id l) w (omega (arith, map_page_id-eq l (omega arith))))

module _ (d : DiskManager) (l : ℕ) (page_data : List ℕ) (hl : l < max_extents * bitmap_size) where
  abbrev pub written : DiskManager
  written = record d {
    file = λ p. if p == map_page_id l then page_data else d.file p;
    file_size = size_after d.file_size (map_page_id l);
  }

  Whole-written : Whole d → Whole written
  Whole-written w =
      Whole-write d written (map_page_id l) page_data w
        (omega (arith, map_page_id-eq l (omega arith))) (λ p. refl) refl

  bitmaps_kept :
      (e : ℕ) → e < max_extents → written.file (bitmap_address e) ≡ d.file (bitmap_address e)
  bitmaps_kept e he = rw apart refl
    where
      apart : (bitmap_address e == map_page_id l) ≡ false
      apart =
          ==_ne (bitmap_address e) (map_page_id l)
            (λ p. (map_page_id-injective l l e (omega arith) (omega arith) (omega arith)).2 (sym p))

  Holds-written : (e : ℕ) → e < max_extents → (b : BitmapPage) → Holds d e b → Holds written e b
  Holds-written e he b h = record {
    whole = Whole-written h.whole;
    stored = bitmaps_kept e he ∙ h.stored;
    valid = h.valid;
    sized = h.sized;
  }

  pub IsValid-written : IsValid d → IsValid written
  IsValid-written v = record {
    whole = Whole-written v.whole;
    few = v.few;
    room = v.room;
    live = λ e he.
        let (b, h, count) = v.live e he in (b, Holds-written e (omega (arith, v.few)) b h, count);
    blank =
        λ e lo he. let none_yet = v.blank e lo he in (bitmaps_kept e he ∙ none_yet.0, none_yet.1);
  }

  pub states_kept :
      (m : ℕ)
      → IsValid d
      → m < max_extents * bitmap_size
      → is_page_free_at written m ≡ is_page_free_at d m
  states_kept m v hm =
      let (b, h, _) = extent d (m / bitmap_size) v (omega arith) in
      is_page_free_at-Holds written m b (Holds-written (m / bitmap_size) (omega arith) b h) hm
      ∙ sym (is_page_free_at-Holds d m b h hm)

  pub file_self : written.file (map_page_id l) ≡ page_data
  file_self = rw (==_refl (map_page_id l)) refl

  pub file_other :
      (m : ℕ)
      → m < max_extents * bitmap_size
      → m ≢ l
      → written.file (map_page_id m) ≡ d.file (map_page_id m)
  file_other m hm ne = rw apart refl
    where
      apart : (map_page_id m == map_page_id l) ≡ false
      apart =
          ==_ne (map_page_id m) (map_page_id l)
            (λ p. ne ((map_page_id-injective m l 0 (omega arith) (omega arith) (omega arith)).0 p))

-- What is written to one of the first 523264 pages of a valid manager is read from it, each other such
-- page reads as before, none of them becomes free or allocated, and the manager stays valid. A valid
-- manager's file is shorter than 2 GB. Page 0 is a page of data like the others here, where the
-- comments of disk_manager.h reserve it for a bitmap.
pub read_page-write_page :
    (d : DiskManager) (l : ℕ) (page_data : List ℕ)
    → IsValid d
    → l < max_extents * bitmap_size
    → (d' : DiskManager) × (write_page d l page_data ≡ ok d')
      × (read_page d' l ≡ ok page_data)
      × ((m : ℕ)
          → m < max_extents * bitmap_size
          → (m ≢ l → read_page d' m ≡ read_page d m) × (is_page_free_at d' m ≡ is_page_free_at d m))
      × IsValid d'
read_page-write_page d l page_data v hl = (
  written d l page_data hl,
  write_page-eq d l page_data (omega arith),
  read_page-eq (written d l page_data hl) l (Whole-written d l page_data hl v.whole) hl
      ∙ ap ok (file_self d l page_data hl),
  (λ m hm. (
    (λ ne.
        read_page-eq (written d l page_data hl) m (Whole-written d l page_data hl v.whole) hm
        ∙ ap ok (file_other d l page_data hl m hm ne)
        ∙ sym (read_page-eq d m v.whole hm)),
    states_kept d l page_data hl m v hm,
  )),
  IsValid-written d l page_data hl v,
)
