-- ===== src/Buffer/Pool/Touch.antt =====
-- A page of the pool that changes in its frame, as it does when it is pinned, unpinned or flushed
-- (buffer/buffer_pool_manager.cpp).
use wslproject.Base.{
  ℕ, ◌*◌, ◌<◌, ◌≡◌, ◌≢◌, sym, ap, ◌∙◌, none, some, true, false, ◌⊎◌, inl, inr, arith, Option-cases,
}
use native.Mathlib.Decide.{ℕ_discrete}
use mathlib.Core.Path.{subst}
use wslproject.Base.Assoc.{lookup}
use wslproject.Storage.Disk.{DiskManager, bitmap_size, is_page_free_at, map_page_id}
use wslproject.Storage.Disk.Extents
use wslproject.Storage.Disk.Extents.{max_extents}
use wslproject.Buffer.Lru.{LruReplacer}
use wslproject.Buffer.Lru.Order
use wslproject.Buffer.Lru.Order.{frames, has}
use wslproject.Buffer.Pool.{BufferPool, Page, set_page}
use wslproject.Buffer.Pool.Valid.{IsValid, InUse, view, view_of}
use wslproject.Buffer.Pool.Install.{set_page_self, set_page_other, some_injective}

-- The page `id` becomes `page` in its frame `f`; the file becomes `disk` and the replacer `queue`.
pub record Changes (p : BufferPool) (id f : ℕ) (disk : DiskManager) (page : Page)
    (queue : LruReplacer) : Type 0 where
  pub at : lookup id p.page_table ≡ some f
  pub disk_valid : Extents.IsValid disk
  pub states :
      (m : ℕ) → m < max_extents * bitmap_size → is_page_free_at disk m ≡ is_page_free_at p.disk m
  pub kept :
      (m : ℕ)
      → m < max_extents * bitmap_size
      → m ≢ id
      → disk.file (map_page_id m) ≡ p.disk.file (map_page_id m)
  pub named : page.page_id ≡ id
  pub queue_valid : Order.IsValid queue
  pub others : (g : ℕ) → g ≢ f → has g (frames queue) ≡ has g (frames p.replacer)

abbrev pub touched : BufferPool → ℕ → DiskManager → Page → LruReplacer → BufferPool
touched p f disk page queue = record p {
  pages = set_page p.pages f page;
  disk = disk;
  replacer = queue;
}

module _ (p : BufferPool) (v : IsValid p) (id f : ℕ) (disk : DiskManager) (page : Page)
    (queue : LruReplacer) (x : Changes p id f disk page queue) where
  abbrev after : BufferPool
  after = touched p f disk page queue

  not_free : (g : ℕ) → has g p.free_list ≡ true → g ≢ f
  not_free g h e =
      let (_, named_before, (used, _)) = v.tabled id f x.at in
      omega (arith, (v.free g h).2, ap (λ (t : ℕ). (p.pages t).page_id) e, named_before, used)

  -- Another page of the table is in another frame.
  other_id : (m g : ℕ) → lookup m p.page_table ≡ some g → g ≢ f → m ≢ id
  other_id m g h ne e =
      ne (some_injective g f (sym h ∙ ap (λ (t : ℕ). lookup t p.page_table) e ∙ x.at))

  tabled_after :
      (m g : ℕ)
      → lookup m p.page_table ≡ some g
      → (g < p.pool_size) × ((after.pages g).page_id ≡ m) × InUse disk m
  tabled_after m g h =
      let (within, held, (small, used)) = v.tabled m g h in
      elim (ℕ_discrete g f) [
        | yes e ↦ (
          within,
          rw (e, set_page_self p.pages f page)
              (x.named
                ∙ sym (v.tabled id f x.at).1
                ∙ ap (λ (t : ℕ). (p.pages t).page_id) (sym e)
                ∙ held),
          (small, x.states m small ∙ used),
        )
        | no ne ↦
            (within, rw (set_page_other p.pages f g page ne) held, (small, x.states m small ∙ used))
      ]

  pub touched-IsValid :
      (has f (frames queue) ≡ true
        → (page.pin_count ≡ 0)
          × (page.is_dirty ≡ false → page.page_data ≡ disk.file (map_page_id id)))
      → (has f (frames queue) ≡ true) ⊎ (0 < page.pin_count)
      → IsValid after
  touched-IsValid idle pinned = record {
    disk_valid = x.disk_valid;
    replacer_valid = x.queue_valid;
    free_distinct = v.free_distinct;
    tabled = tabled_after;
    evictable = λ g h. elim (ℕ_discrete g f) [
      | yes e ↦
          let (unpinned, clean) = idle (subst (λ (t : ℕ). has t (frames queue) ≡ true) e h) in
          rw (e, set_page_self p.pages f page, x.named)
            ((v.tabled id f x.at).0, unpinned, x.at, clean)
      | no ne ↦
          let (within, unpinned, held, clean) = v.evictable g (sym (x.others g ne) ∙ h) in
          rw (set_page_other p.pages f g page ne) (
            within,
            unpinned,
            held,
            λ d.
                clean d
                ∙ sym (
                    x.kept (p.pages g).page_id ((v.tabled (p.pages g).page_id g held).2.0)
                      (other_id (p.pages g).page_id g held ne)),
          )
    ];
    free = λ g h.
        let ne = not_free g h in
        let (within, unpinned, unnamed, clean, unqueued) = v.free g h in
        rw (set_page_other p.pages f g page ne)
          (within, unpinned, unnamed, clean, x.others g ne ∙ unqueued);
    covered = λ g h. elim (ℕ_discrete g f) [
      | yes e ↦ elim pinned [
        | inl queued ↦ inr (inl (rw e queued))
        | inr more ↦ inr (inr (rw (e, set_page_self p.pages f page) more))
      ]
      | no ne ↦ elim (v.covered g h) [
        | inl a ↦ inl a
        | inr (inl a) ↦ inr (inl (x.others g ne ∙ a))
        | inr (inr a) ↦ inr (inr (rw (set_page_other p.pages f g page ne) a))
      ]
    ];
  }

  -- If its data is as before, so is every page.
  pub touched_view :
      page.page_data ≡ (p.pages f).page_data
      → (m : ℕ) → m < max_extents * bitmap_size
      → view after m ≡ view p m
  unfolding view_of
  touched_view as_before m hm = elim (Option-cases (lookup m p.page_table)) [
    | inl none_yet ↦ rw none_yet (x.kept m hm (λ e. missing_at m e none_yet))
    | inr (g, held) ↦ elim (ℕ_discrete g f) [
      | yes e ↦
          rw (held, e) (ap (λ (t : Page). t.page_data) (set_page_self p.pages f page) ∙ as_before)
      | no ne ↦ rw held (ap (λ (t : Page). t.page_data) (set_page_other p.pages f g page ne))
    ]
  ]
    where
      missing_at : (m : ℕ) → m ≡ id → lookup m p.page_table ≡ none → ⊥
      missing_at m e h = ground (arith, ap (λ (t : ℕ). lookup t p.page_table) e, x.at)
