-- ===== src/Buffer/Pool/Valid.antt =====
-- What holds of the buffer pool between two calls (buffer/buffer_pool_manager.cpp).
use wslproject.Base.{ℕ, ◌*◌, ◌<◌, ◌≡◌, List, [], ◌∷◌, Option, none, some, true, false, ok, ◌⊎◌}
use wslproject.Base.Assoc.{lookup}
use wslproject.Storage.Disk.{DiskManager, bitmap_size, is_page_free_at, map_page_id}
use wslproject.Storage.Disk.Extents
use wslproject.Storage.Disk.Extents.{max_extents}
use wslproject.Buffer.Lru.Order
use wslproject.Buffer.Lru.Order.{frames, has}
use wslproject.Buffer.Pool.{BufferPool, invalid_page_id}

unfoldable pub NoDup : List ℕ → Type 0
NoDup [] = Unit {0}
NoDup (x ∷ xs) = (has x xs ≡ false) × NoDup xs

-- A page of the file that is allocated.
abbrev pub InUse : DiskManager → ℕ → Type 0
InUse d id = (id < max_extents * bitmap_size) × (is_page_free_at d id ≡ ok false)

pub record IsValid (p : BufferPool) : Type 0 where
  pub disk_valid : Extents.IsValid p.disk
  pub replacer_valid : Order.IsValid p.replacer
  pub free_distinct : NoDup p.free_list
  -- The table leads to the frame of a page, for pages that are allocated.
  pub tabled :
      (id f : ℕ)
      → lookup id p.page_table ≡ some f
      → (f < p.pool_size) × ((p.pages f).page_id ≡ id) × InUse p.disk id
  -- A frame that may be evicted is not pinned, is in the table, and has what the file has unless it is dirty.
  pub evictable :
      (f : ℕ)
      → has f (frames p.replacer) ≡ true
      → (f < p.pool_size)
        × ((p.pages f).pin_count ≡ 0)
        × (lookup (p.pages f).page_id p.page_table ≡ some f)
        × ((p.pages f).is_dirty ≡ false
            → (p.pages f).page_data ≡ p.disk.file (map_page_id (p.pages f).page_id))
  -- A free frame holds no page.
  pub free :
      (f : ℕ)
      → has f p.free_list ≡ true
      → (f < p.pool_size)
        × ((p.pages f).pin_count ≡ 0)
        × ((p.pages f).page_id ≡ invalid_page_id)
        × ((p.pages f).is_dirty ≡ false)
        × (has f (frames p.replacer) ≡ false)
  -- Each frame is free, may be evicted, or is pinned.
  pub covered :
      (f : ℕ)
      → f < p.pool_size
      → (has f p.free_list ≡ true)
        ⊎ (has f (frames p.replacer) ≡ true)
        ⊎ (0 < (p.pages f).pin_count)

-- The pages as the callers of the pool see them: those of the file, with the pool's in their place.
unfoldable pub view_of : BufferPool → ℕ → Option ℕ → List ℕ
view_of p id none = p.disk.file (map_page_id id)
view_of p id (some f) = (p.pages f).page_data

abbrev pub view : BufferPool → ℕ → List ℕ
view p id = view_of p id (lookup id p.page_table)
