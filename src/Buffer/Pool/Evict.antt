-- ===== src/Buffer/Pool/Evict.antt =====
-- What FetchPage and NewPage of buffer/buffer_pool_manager.cpp do with the frame that they take.
use wslproject.Base.{
  ℕ, ◌*◌, ◌<◌, ◌≡◌, ◌≢◌, refl, sym, ap, ◌∙◌, List, some, true, false, ok, lt→ltb, ==_ne, ==_refl,
  inl, inr, arith, Bool-cases,
}
use wslproject.Base.Assoc.{lookup}
use wslproject.Storage.Disk.{DiskManager, bitmap_size, is_page_free_at, map_page_id}
use wslproject.Storage.Disk.Extents
use wslproject.Storage.Disk.Extents.{max_extents}
use wslproject.Storage.Disk.Contents.{
  write_page-eq, written, IsValid-written, states_kept, file_self, file_other,
}
use wslproject.Buffer.Lru.{LruReplacer, pin}
use wslproject.Buffer.Lru.Order
use wslproject.Buffer.Lru.Order.{frames, has, remove}
use wslproject.Buffer.Lru.Queue.{pin_lem}
use wslproject.Buffer.Pool.{BufferPool, Page, page_at, write_back}
use wslproject.Buffer.Pool.Valid.{IsValid}
use wslproject.Buffer.Pool.Frames.{Spare, has-remove}
use wslproject.Buffer.Pool.Install.{true-false}

pub page_at-eq : (p : BufferPool) (f : ℕ) → f < p.pool_size → page_at p f ≡ ok (p.pages f)
unfolding page_at
page_at-eq p f h = rw (lt→ltb f p.pool_size h) refl

-- Writing back what a frame held, if it is dirty.
pub write_back_lem :
    (d : DiskManager) (page : Page) (page_data : List ℕ)
    → Extents.IsValid d
    → (page.is_dirty ≡ true → page.page_id < max_extents * bitmap_size)
    → (d' : DiskManager) × (write_back d page page_data ≡ ok d')
      × Extents.IsValid d'
      × ((m : ℕ) → m < max_extents * bitmap_size → is_page_free_at d' m ≡ is_page_free_at d m)
      × ((m : ℕ)
          → m < max_extents * bitmap_size
          → m ≢ page.page_id
          → d'.file (map_page_id m) ≡ d.file (map_page_id m))
      × (page.is_dirty ≡ true → d'.file (map_page_id page.page_id) ≡ page_data)
      × (page.is_dirty ≡ false → d' ≡ d)
unfolding write_back
write_back_lem d page page_data v small = elim (Bool-cases page.is_dirty) [
  | inr clean ↦ (
    d,
    rw clean refl,
    v,
    (λ m h. refl),
    (λ m h ne. refl),
    (λ dirty. absurd (true-false dirty clean)),
    (λ _. refl),
  )
  | inl dirty ↦
      let hl = small dirty in
      (
        written d page.page_id page_data hl,
        rw (dirty, write_page-eq d page.page_id page_data (omega arith)) refl,
        IsValid-written d page.page_id page_data hl v,
        (λ m h. states_kept d page.page_id page_data hl m v h),
        file_other d page.page_id page_data hl,
        (λ _. file_self d page.page_id page_data hl),
        (λ clean. absurd (true-false dirty clean)),
      )
]

-- Pin of a frame that is not in the queue, and of one that may be.
pub pin_other :
    (r : LruReplacer) (f g : ℕ)
    → Order.IsValid r
    → g ≢ f
    → has g (frames (pin r f)) ≡ has g (frames r)
pin_other r f g v ne =
    ap (has g) (pin_lem r f v).0 ∙ has-remove f g (frames r) ∙ rw (==_ne f g (λ e. ne (sym e))) refl

pub pin_self : (r : LruReplacer) (f : ℕ) → Order.IsValid r → has f (frames (pin r f)) ≡ false
pin_self r f v = ap (has f) (pin_lem r f v).0 ∙ has-remove f f (frames r) ∙ rw (==_refl f) refl

-- The frame `f` is taken.
module _ (p : BufferPool) (v : IsValid p) (f : ℕ) (fl : List ℕ) (r : LruReplacer)
    (s : Spare p f fl r) where
  -- The page that the frame held, when it is dirty, is one of the file.
  pub old_in_file : (p.pages f).is_dirty ≡ true → (p.pages f).page_id < max_extents * bitmap_size
  old_in_file dirty = elim s.origin [
    | inl (here, _) ↦ (v.tabled (p.pages f).page_id f here).2.0
    | inr (_, clean) ↦ absurd (true-false dirty clean)
  ]

  -- A clean page that the frame held is in the file.
  pub clean_in_file :
      (p.pages f).is_dirty ≡ false
      → lookup (p.pages f).page_id p.page_table ≡ some f
      → p.disk.file (map_page_id (p.pages f).page_id) ≡ (p.pages f).page_data
  clean_in_file clean here = elim s.origin [
    | inl (_, same) ↦ sym (same clean)
    | inr (none_yet, _) ↦
        absurd (omega (arith, none_yet, (v.tabled (p.pages f).page_id f here).2.0))
  ]
