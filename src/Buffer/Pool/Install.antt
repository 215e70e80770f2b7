-- ===== src/Buffer/Pool/Install.antt =====
-- A page that is put in the place of another, as FetchPage and NewPage do it
-- (buffer/buffer_pool_manager.cpp).
use wslproject.Base.{
  ℕ, ◌*◌, ◌<◌, ◌≡◌, ◌≢◌, refl, sym, ap, ◌∙◌, List, Option, none, some, Bool, true, false, ==_ne,
  ==_refl, ◌⊎◌, inl, inr, arith, Option-cases,
}
use native.Mathlib.Decide.{ℕ_discrete}
use mathlib.Core.Path.{subst}
use wslproject.Base.Assoc.{lookup, insert, erase, lookup-insert, lookup-erase}
use wslproject.Storage.Disk.{DiskManager, bitmap_size, map_page_id}
use wslproject.Storage.Disk.Extents
use wslproject.Storage.Disk.Extents.{max_extents}
use wslproject.Buffer.Lru.{LruReplacer}
use wslproject.Buffer.Lru.Order
use wslproject.Buffer.Lru.Order.{frames, has}
use wslproject.Buffer.Pool.{BufferPool, Page, invalid_page_id, set_page}
use wslproject.Buffer.Pool.Valid.{IsValid, InUse, view, view_of}
use wslproject.Buffer.Pool.Frames.{Spare}

pub some_injective : (a b : ℕ) → some a ≡ some b → a ≡ b
some_injective a b h = ground arith

none-some : {o : Option ℕ} → (a : ℕ) → o ≡ none → o ≡ some a → ⊥
none-some a h k = ground arith

pub true-false : {b : Bool} → b ≡ true → b ≡ false → ⊥
true-false h k = ground arith

pub set_page_self : (pages : ℕ → Page) (f : ℕ) (page : Page) → set_page pages f page f ≡ page
unfolding set_page
set_page_self pages f page = rw (==_refl f) refl

pub set_page_other :
    (pages : ℕ → Page) (f g : ℕ) (page : Page) → g ≢ f → set_page pages f page g ≡ pages g
unfolding set_page
set_page_other pages f g page ne = rw (==_ne g f ne) refl

-- Page `page`, whose id is `id`, takes the place of the page in the spare frame `f`; the file becomes
-- `disk` and the replacer `queue`.
pub record Replaces (p : BufferPool) (f : ℕ) (fl : List ℕ) (r : LruReplacer) (id : ℕ)
    (disk : DiskManager) (page : Page) (queue : LruReplacer) : Type 0 where
  pub spare : Spare p f fl r
  pub missing : lookup id p.page_table ≡ none
  pub disk_valid : Extents.IsValid disk
  pub in_use : InUse disk id
  pub keeps : (m : ℕ) → InUse p.disk m → InUse disk m
  pub kept :
      (m : ℕ)
      → m < max_extents * bitmap_size
      → m ≢ (p.pages f).page_id
      → disk.file (map_page_id m) ≡ p.disk.file (map_page_id m)
  pub named : page.page_id ≡ id
  pub pinned : 0 < page.pin_count
  pub queue_valid : Order.IsValid queue
  pub same : (g : ℕ) → has g (frames queue) ≡ has g (frames r)

abbrev pub installed : BufferPool → ℕ → List ℕ → ℕ → DiskManager → Page → LruReplacer → BufferPool
installed p f fl id disk page queue = record {
  pool_size = p.pool_size;
  pages = set_page p.pages f page;
  disk = disk;
  page_table = insert id f (erase (p.pages f).page_id p.page_table);
  replacer = queue;
  free_list = fl;
}

module _ (p : BufferPool) (v : IsValid p) (f : ℕ) (fl : List ℕ) (r : LruReplacer) (id : ℕ)
    (disk : DiskManager) (page : Page) (queue : LruReplacer)
    (x : Replaces p f fl r id disk page queue) where
  abbrev old_id : ℕ
  old_id = (p.pages f).page_id

  abbrev after : BufferPool
  after = installed p f fl id disk page queue

  pub table_self : lookup id after.page_table ≡ some f
  table_self = lookup-insert id id f (erase old_id p.page_table) ∙ rw (==_refl id) refl

  table_old : old_id ≢ id → lookup old_id after.page_table ≡ none
  table_old ne =
      lookup-insert id old_id f (erase old_id p.page_table)
      ∙ rw (==_ne id old_id (λ e. ne (sym e)))
          (lookup-erase old_id old_id p.page_table ∙ rw (==_refl old_id) refl)

  table_other : (j : ℕ) → j ≢ id → j ≢ old_id → lookup j after.page_table ≡ lookup j p.page_table
  table_other j ne old =
      lookup-insert id j f (erase old_id p.page_table)
      ∙ rw (==_ne id j (λ e. ne (sym e)))
          (lookup-erase old_id j p.page_table ∙ rw (==_ne old_id j (λ e. old (sym e))) refl)

  -- Another frame of the table holds another page.
  other_page : (j g : ℕ) → lookup j p.page_table ≡ some g → g ≢ f → j ≢ old_id
  other_page j g h ne e = elim x.spare.origin [
    | inl (here, _) ↦
        ne (some_injective g f (sym h ∙ ap (λ (t : ℕ). lookup t p.page_table) e ∙ here))
    | inr (none_yet, _) ↦ absurd (omega (arith, e, none_yet, (v.tabled j g h).2.0))
  ]

  other_frame : (j g : ℕ) → lookup j p.page_table ≡ some g → j ≢ old_id → g ≢ f
  other_frame j g h ne e = ne (sym (v.tabled j g h).1 ∙ ap (λ (t : ℕ). (p.pages t).page_id) e)

  not_missing : (j g : ℕ) → lookup j p.page_table ≡ some g → j ≢ id
  not_missing j g h e = none-some g x.missing (ap (λ (t : ℕ). lookup t p.page_table) (sym e) ∙ h)

  tabled_after :
      (j g : ℕ)
      → lookup j after.page_table ≡ some g
      → (g < p.pool_size) × ((after.pages g).page_id ≡ j) × InUse disk j
  tabled_after j g h = elim (ℕ_discrete j id) [
    | yes e ↦
        let at : g ≡ f =
          some_injective g f (sym h ∙ ap (λ (t : ℕ). lookup t after.page_table) e ∙ table_self) in
        (
          omega (arith, at, x.spare.within),
          rw at (ap (λ (t : Page). t.page_id) (set_page_self p.pages f page) ∙ x.named ∙ sym e),
          subst (λ (t : ℕ). InUse disk t) (sym e) x.in_use,
        )
    | no ne ↦ elim (ℕ_discrete j old_id) [
      | yes old ↦ absurd (
          none-some g (table_old (λ e. ne (old ∙ e)))
            (ap (λ (t : ℕ). lookup t after.page_table) (sym old) ∙ h))
      | no old ↦
          let before = sym (table_other j ne old) ∙ h in
          let (within, held, used) = v.tabled j g before in
          (
            within,
            ap (λ (t : Page). t.page_id)
                  (set_page_other p.pages f g page (other_frame j g before old))
                ∙ held,
            x.keeps j used,
          )
    ]
  ]

  queued_before :
      (g : ℕ) → has g (frames queue) ≡ true → (g ≢ f) × (has g (frames p.replacer) ≡ true)
  queued_before g h =
      let ne : g ≢ f =
        λ e. true-false h (x.same g ∙ ap (λ (t : ℕ). has t (frames r)) e ∙ x.spare.not_queued) in
      (ne, sym (x.same g ∙ x.spare.others_queued g ne) ∙ h)

  evictable_after :
      (g : ℕ)
      → has g (frames queue) ≡ true
      → (g < p.pool_size)
        × ((after.pages g).pin_count ≡ 0)
        × (lookup (after.pages g).page_id after.page_table ≡ some g)
        × ((after.pages g).is_dirty ≡ false
            → (after.pages g).page_data ≡ disk.file (map_page_id (after.pages g).page_id))
  evictable_after g h =
      let (ne, before) = queued_before g h in
      let (within, idle, held, clean) = v.evictable g before in
      let other = other_page (p.pages g).page_id g held ne in
      rw (set_page_other p.pages f g page ne) (
        within,
        idle,
        table_other (p.pages g).page_id (not_missing (p.pages g).page_id g held) other ∙ held,
        λ d.
            clean d
            ∙ sym (x.kept (p.pages g).page_id ((v.tabled (p.pages g).page_id g held).2.0) other),
      )

  free_after :
      (g : ℕ)
      → has g fl ≡ true
      → (g < p.pool_size)
        × ((after.pages g).pin_count ≡ 0)
        × ((after.pages g).page_id ≡ invalid_page_id)
        × ((after.pages g).is_dirty ≡ false)
        × (has g (frames queue) ≡ false)
  free_after g h =
      let ne : g ≢ f = λ e. true-false h (ap (λ (t : ℕ). has t fl) e ∙ x.spare.not_free) in
      let (within, idle, unnamed, clean, unqueued) =
        v.free g (sym (x.spare.others_free g ne) ∙ h) in
      rw (set_page_other p.pages f g page ne)
        (within, idle, unnamed, clean, x.same g ∙ x.spare.others_queued g ne ∙ unqueued)

  covered_after :
      (g : ℕ)
      → g < p.pool_size
      → (has g fl ≡ true) ⊎ (has g (frames queue) ≡ true) ⊎ (0 < (after.pages g).pin_count)
  covered_after g h = elim (ℕ_discrete g f) [
    | yes e ↦ inr (inr (rw (e, set_page_self p.pages f page) x.pinned))
    | no ne ↦ elim (v.covered g h) [
      | inl a ↦ inl (x.spare.others_free g ne ∙ a)
      | inr (inl a) ↦ inr (inl (x.same g ∙ x.spare.others_queued g ne ∙ a))
      | inr (inr a) ↦ inr (inr (rw (set_page_other p.pages f g page ne) a))
    ]
  ]

  pub installed-IsValid : IsValid after
  installed-IsValid = record {
    disk_valid = x.disk_valid;
    replacer_valid = x.queue_valid;
    free_distinct = x.spare.distinct;
    tabled = tabled_after;
    evictable = evictable_after;
    free = free_after;
    covered = covered_after;
  }

  -- Every page but the new one and the old one is seen as before.
  pub installed_view_other :
      (m : ℕ) → m < max_extents * bitmap_size → m ≢ id → m ≢ old_id → view after m ≡ view p m
  unfolding view_of
  installed_view_other m hm ne old = elim (Option-cases (lookup m p.page_table)) [
    | inl none_yet ↦ rw (table_other m ne old, none_yet) (x.kept m hm old)
    | inr (g, held) ↦
        rw (table_other m ne old, held)
          (ap (λ (t : Page). t.page_data)
            (set_page_other p.pages f g page (other_frame m g held old)))
  ]

  -- The old one is seen as it is in the file.
  pub installed_view_old : old_id ≢ id → view after old_id ≡ disk.file (map_page_id old_id)
  unfolding view_of
  installed_view_old ne = rw (table_old ne) refl

  -- So every page but the new one is seen as before, when the old one is in the file.
  pub installed_view :
      (lookup old_id p.page_table ≡ some f → disk.file (map_page_id old_id) ≡ (p.pages f).page_data)
      → (m : ℕ) → m < max_extents * bitmap_size
      → m ≢ id
      → view after m ≡ view p m
  unfolding view_of
  installed_view saved m hm ne = elim (ℕ_discrete m old_id) [
    | yes old ↦ elim x.spare.origin [
      | inl (here, _) ↦ rw old (installed_view_old (λ e. ne (old ∙ e)) ∙ rw here (saved here))
      | inr (none_yet, _) ↦ absurd (omega (arith, none_yet))
    ]
    | no old ↦ installed_view_other m hm ne old
  ]

  pub installed_view_self : view after id ≡ page.page_data
  unfolding view_of
  installed_view_self =
      rw table_self (ap (λ (t : Page). t.page_data) (set_page_self p.pages f page))
