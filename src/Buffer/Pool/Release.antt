-- ===== src/Buffer/Pool/Release.antt =====
-- UnpinPage, FlushPage and the destructor of buffer/buffer_pool_manager.cpp.
use wslproject.Base.{
  ℕ, ◌-◌, ◌*◌, ◌<◌, ◌≡◌, ◌≢◌, refl, sym, ap, ◌∙◌, List, none, some, Bool, true, false, not, Result,
  ok, ltb, if◌then◌else◌, ==_ne, ==_refl, ==_iff, ◌==◌, ◌⊎◌, inl, inr, arith, Bool-cases,
  Option-cases,
}
use native.Mathlib.Decide.{ℕ_discrete}
use wslproject.Base.Assoc.{lookup}
use wslproject.Storage.Disk.{DiskManager, bitmap_size, map_page_id}
use wslproject.Storage.Disk.Extents.{max_extents}
use wslproject.Storage.Disk.Contents.{
  write_page-eq, written, IsValid-written, states_kept, file_self, file_other,
}
use wslproject.Buffer.Lru.{LruReplacer, unpin}
use wslproject.Buffer.Lru.Order
use wslproject.Buffer.Lru.Order.{frames, has}
use wslproject.Buffer.Lru.Queue.{unpin_lem, push_back}
use wslproject.Buffer.Pool.{BufferPool, Page, unpin_found, unpin_page, flush_found, flush_page}
use wslproject.Buffer.Pool.Valid.{IsValid, view, view_of}
use wslproject.Buffer.Pool.Frames.{has-append}
use wslproject.Buffer.Pool.Evict.{page_at-eq}
use wslproject.Buffer.Pool.Fetch.{pins, pins_of}
use wslproject.Buffer.Pool.Install.{set_page_self}
use wslproject.Buffer.Pool.Touch.{Changes, touched, touched-IsValid, touched_view}

has-push_back : (q : List ℕ) (f g : ℕ) → has g (push_back q f) ≡ (if f == g then true else has g q)
unfolding push_back
has-push_back q f g = elim (Bool-cases (has f q)) [
  | inl there ↦ rw there (kept there)
  | inr missing ↦ rw missing (has-append f g q)
]
  where
    kept : has f q ≡ true → has g q ≡ (if f == g then true else has g q)
    kept there = elim (ℕ_discrete f g) [
      | yes e ↦ rw (e, ==_refl g) (ap (λ (t : ℕ). has t q) (sym e) ∙ there)
      | no ne ↦ rw (==_ne f g ne) refl
    ]

-- What UnpinPage of the page in frame `f` returns, and the pool after it.
abbrev pub Unpinned : BufferPool → ℕ → ℕ → Bool → Result (BufferPool × Bool) → Type 0
Unpinned p id f is_dirty result =
    (p' : BufferPool) × (result ≡ ok (p', not (pins p id == 0)))
    × (pins p' id ≡ pins p id - 1)
    × ((p'.pages f).is_dirty ≡ (if (p.pages f).is_dirty then true else is_dirty))
    × (has f (frames p'.replacer) ≡ ltb (pins p id) 2)
    × ((m : ℕ) → m < max_extents * bitmap_size → view p' m ≡ view p m)
    × IsValid p'

-- What FlushPage does, and the pool after it.
abbrev pub Flushed : BufferPool → ℕ → ℕ → Result (BufferPool × Bool) → Type 0
Flushed p id f result =
    (p' : BufferPool) × (result ≡ ok (p', true))
    × (p'.page_table ≡ p.page_table)
    × (p'.disk.file (map_page_id id) ≡ view p id)
    × ((p'.pages f).is_dirty ≡ false)
    × ((m : ℕ)
        → m < max_extents * bitmap_size
        → (view p' m ≡ view p m)
          × (m ≢ id → p'.disk.file (map_page_id m) ≡ p.disk.file (map_page_id m)))
    × IsValid p'

-- A page that is given back clean, and was clean, has what the file has.
abbrev pub Kept : BufferPool → ℕ → ℕ → Bool → Type 0
Kept p id f is_dirty =
    (if (p.pages f).is_dirty then true else is_dirty) ≡ false
    → (p.pages f).page_data ≡ p.disk.file (map_page_id id)

module _ (p : BufferPool) (v : IsValid p) (id f : ℕ) (at : lookup id p.page_table ≡ some f) where
  within : f < p.pool_size
  within = (v.tabled id f at).0

  -- A frame of the table is not free: it may be evicted, or it is pinned.
  pub queued : (p.pages f).pin_count ≡ 0 → has f (frames p.replacer) ≡ true
  queued unpinned = elim (v.covered f within) [
    | inl free ↦
        let (_, named, (small, _)) = v.tabled id f at in
        absurd (omega (arith, named, small, (v.free f free).2))
    | inr (inl there) ↦ there
    | inr (inr pinned) ↦ absurd (omega arith)
  ]

  not_queued : 0 < (p.pages f).pin_count → has f (frames p.replacer) ≡ false
  not_queued pinned = elim (Bool-cases (has f (frames p.replacer))) [
    | inl there ↦ absurd (omega (arith, (v.evictable f there).1))
    | inr out ↦ out
  ]

  module _ (is_dirty : Bool) (promise : Kept p id f is_dirty) where
    -- The change that UnpinPage makes, with the replacer after it.
    unpin_change :
        (pin_count : ℕ) (queue : LruReplacer)
        → Order.IsValid queue
        → ((g : ℕ) → g ≢ f → has g (frames queue) ≡ has g (frames p.replacer))
        → Changes p id f p.disk
            (record (p.pages f) {
              is_dirty = if (p.pages f).is_dirty then true else is_dirty;
              pin_count = pin_count;
            })
            queue
    unpin_change pin_count queue queue_valid others = record {
      at = at;
      disk_valid = v.disk_valid;
      states = λ m h. refl;
      kept = λ m h ne. refl;
      named = (v.tabled id f at).1;
      queue_valid = queue_valid;
      others = others;
    }

    unpinned_lem :
        (pin_count : ℕ) (queue : LruReplacer)
        → Order.IsValid queue
        → ((g : ℕ) → g ≢ f → has g (frames queue) ≡ has g (frames p.replacer))
        → pin_count ≡ (p.pages f).pin_count - 1
        → has f (frames queue) ≡ ltb (p.pages f).pin_count 2
        → (result : Result (BufferPool × Bool))
        → result
          ≡ ok (
            touched p f p.disk
                (record (p.pages f) {
                  is_dirty = if (p.pages f).is_dirty then true else is_dirty;
                  pin_count = pin_count;
                })
                queue,
            not ((p.pages f).pin_count == 0),
          )
        → Unpinned p id f is_dirty result
    unfolding pins_of
    unpinned_lem pin_count queue queue_valid others count there result e =
        let page : Page = record (p.pages f) {
          is_dirty = if (p.pages f).is_dirty then true else is_dirty;
          pin_count = pin_count;
        } in
        let x = unpin_change pin_count queue queue_valid others in
        (
          touched p f p.disk page queue,
          rw at e,
          rw at (ap (λ (t : Page). t.pin_count) (set_page_self p.pages f page) ∙ count),
          ap (λ (t : Page). t.is_dirty) (set_page_self p.pages f page),
          rw at there,
          touched_view p v id f p.disk page queue x refl,
          touched-IsValid p v id f p.disk page queue x (λ q. (ground arith, promise))
              (elim (Bool-cases (has f (frames queue))) [
                | inl a ↦ inl a
                | inr b ↦ inr (ground arith)
              ]),
        )

    unpin_page_lem_at : Unpinned p id f is_dirty (unpin_page p id is_dirty)
    unfolding unpin_page unpin_found
    unpin_page_lem_at = elim (ℕ_discrete (p.pages f).pin_count 0) [
      | yes idle ↦
          unpinned_lem (p.pages f).pin_count p.replacer v.replacer_valid (λ g ne. refl)
            (omega arith) (queued idle ∙ ground arith) _
            (rw (at, page_at-eq p f within, (==_iff (p.pages f).pin_count 0).1 idle) refl)
      | no busy ↦ elim (ℕ_discrete (p.pages f).pin_count 1) [
        | yes last ↦
            unpinned_lem ((p.pages f).pin_count - 1) (unpin p.replacer f)
              (unpin_lem p.replacer f v.replacer_valid).1 unpin_other refl
              (unpin_self ∙ ground arith) _
              (rw
                (
                  at,
                  page_at-eq p f within,
                  ==_ne (p.pages f).pin_count 0 busy,
                  (==_iff (p.pages f).pin_count 1).1 last,
                )
                refl)
        | no more ↦
            unpinned_lem ((p.pages f).pin_count - 1) p.replacer v.replacer_valid (λ g ne. refl) refl
              (not_queued (omega arith) ∙ ground arith) _
              (rw
                (
                  at,
                  page_at-eq p f within,
                  ==_ne (p.pages f).pin_count 0 busy,
                  ==_ne (p.pages f).pin_count 1 more,
                )
                refl)
      ]
    ]
      where
        unpin_has :
            (g : ℕ)
            → has g (frames (unpin p.replacer f))
              ≡ (if f == g then true else has g (frames p.replacer))
        unpin_has g =
            ap (has g) (unpin_lem p.replacer f v.replacer_valid).0
            ∙ has-push_back (frames p.replacer) f g

        unpin_other :
            (g : ℕ) → g ≢ f → has g (frames (unpin p.replacer f)) ≡ has g (frames p.replacer)
        unpin_other g ne = unpin_has g ∙ rw (==_ne f g (λ e. ne (sym e))) refl

        unpin_self : has f (frames (unpin p.replacer f)) ≡ true
        unpin_self = unpin_has f ∙ rw (==_refl f) refl

  flush_page_lem_at : Flushed p id f (flush_page p id)
  unfolding flush_page flush_found view_of
  flush_page_lem_at =
      let (_, named, (small, _)) = v.tabled id f at in
      let page : Page = record (p.pages f) { is_dirty = false } in
      let d : DiskManager = written p.disk id (p.pages f).page_data small in
      let x : Changes p id f d page p.replacer = record {
        at = at;
        disk_valid = IsValid-written p.disk id (p.pages f).page_data small v.disk_valid;
        states = λ m h. states_kept p.disk id (p.pages f).page_data small m v.disk_valid h;
        kept = file_other p.disk id (p.pages f).page_data small;
        named = named;
        queue_valid = v.replacer_valid;
        others = λ g ne. refl;
      } in
      let saved = file_self p.disk id (p.pages f).page_data small in
      (
        touched p f d page p.replacer,
        rw (at, page_at-eq p f within, write_page-eq p.disk id (p.pages f).page_data (omega arith))
            refl,
        refl,
        rw at saved,
        ap (λ (t : Page). t.is_dirty) (set_page_self p.pages f page),
        (λ m h. (
          touched_view p v id f d page p.replacer x refl m h,
          λ ne. file_other p.disk id (p.pages f).page_data small m h ne,
        )),
        touched-IsValid p v id f d page p.replacer x (λ q. ((v.evictable f q).1, λ _. sym saved))
            (elim (ℕ_discrete (p.pages f).pin_count 0) [
              | yes idle ↦ inl (queued idle)
              | no busy ↦ inr (omega (arith, busy))
            ]),
      )

-- UnpinPage in a valid pool. A page that is not in the pool is left alone. Otherwise it answers whether
-- the page was pinned; the page is pinned once less, is dirty if it was or is given back so, and may be
-- evicted just if nobody pins it any more; every page is seen as before and the pool stays valid, provided
-- that a page that is clean then has what the file has.
pub unpin_page_lem :
    (p : BufferPool) (id : ℕ) (is_dirty : Bool)
    → IsValid p
    → ((f : ℕ) → lookup id p.page_table ≡ some f → Kept p id f is_dirty)
    → ((lookup id p.page_table ≡ none) × (unpin_page p id is_dirty ≡ ok (p, true)))
      ⊎ ((f : ℕ) × (lookup id p.page_table ≡ some f)
          × Unpinned p id f is_dirty (unpin_page p id is_dirty))
unfolding unpin_page unpin_found
unpin_page_lem p id is_dirty v promise = elim (Option-cases (lookup id p.page_table)) [
  | inl missing ↦ inl (missing, rw missing refl)
  | inr (f, at) ↦ inr (f, at, unpin_page_lem_at p v id f at is_dirty (promise f at))
]

-- FlushPage in a valid pool. It fails just if the page is not in the pool, and changes nothing then.
-- Otherwise the file has the page as it is in the pool, and the page is clean; no other page of the file
-- changes, every page is seen as before, and the pool stays valid.
pub flush_page_lem :
    (p : BufferPool) (id : ℕ)
    → IsValid p
    → ((lookup id p.page_table ≡ none) × (flush_page p id ≡ ok (p, false)))
      ⊎ ((f : ℕ) × (lookup id p.page_table ≡ some f) × Flushed p id f (flush_page p id))
unfolding flush_page flush_found
flush_page_lem p id v = elim (Option-cases (lookup id p.page_table)) [
  | inl missing ↦ inl (missing, rw missing refl)
  | inr (f, at) ↦ inr (f, at, flush_page_lem_at p v id f at)
]
