-- ===== src/Buffer/Pool/Create.antt =====
-- NewPage of buffer/buffer_pool_manager.cpp.
use wslproject.Base.{
  ℕ, zero, suc, ◌+◌, ◌*◌, ◌<◌, ◌≤◌, ◌≡◌, ◌≢◌, refl, sym, ap, ◌∙◌, List, Option, none, some, Bool,
  true, false, Result, ok, if◌then◌else◌, ==_ne, ==_refl, ◌==◌, ◌⊎◌, inl, inr, arith, Bool-cases,
  Option-cases, ◌&&◌,
}
use native.Mathlib.Decide.{ℕ_discrete}
use mathlib.Core.Path.{subst}
use wslproject.Base.Assoc.{lookup}
use wslproject.Storage.Disk.{DiskManager, bitmap_size, is_page_free_at, map_page_id}
use wslproject.Storage.Disk.Extents.{max_extents}
use wslproject.Storage.Disk.Allocation.{allocate_page-Marks}
use wslproject.Buffer.Lru.{LruReplacer}
use wslproject.Buffer.Pool.{
  BufferPool, Page, empty_page_data, page_at, any_unpinned, install_page, new_page,
}
use wslproject.Buffer.Pool.Valid.{IsValid, InUse, view}
use wslproject.Buffer.Pool.Frames.{Spare, take_frame_lem}
use wslproject.Buffer.Pool.Install.{
  Replaces, set_page_self, installed, installed-IsValid, installed_view, installed_view_other,
  installed_view_old, table_self,
}
use wslproject.Buffer.Pool.Evict.{page_at-eq, write_back_lem, old_in_file, clean_in_file}

-- The loop finds an unpinned page, or all are pinned.
any_unpinned_lem :
    (pages : ℕ → Page) (i k : ℕ)
    → ((any_unpinned pages i k ≡ true) × (f : ℕ) × (f < i + k) × ((pages f).pin_count ≡ 0))
      ⊎ ((any_unpinned pages i k ≡ false) × ((f : ℕ) → i ≤ f → f < i + k → 0 < (pages f).pin_count))
unfolding any_unpinned
any_unpinned_lem pages i zero = inr (refl, λ f a b. absurd (omega arith))
any_unpinned_lem pages i (suc k) = elim (ℕ_discrete (pages i).pin_count 0) [
  | yes idle ↦ inl (ground arith, i, omega arith, idle)
  | no busy ↦ elim (any_unpinned_lem pages (suc i) k) [
    | inl (a, f, b, c) ↦ inl (ground arith, f, omega arith, c)
    | inr (a, all) ↦ inr (
      ground arith,
      λ f lo hi. elim (ℕ_discrete i f) [
        | yes e ↦ omega (arith, busy, ap (λ (t : ℕ). (pages t).pin_count) e)
        | no ne ↦ all f (omega arith) (omega arith)
      ],
    )
  ]
]

-- The page that was in frame `f`, and was dirty.
abbrev pub lost : BufferPool → ℕ → ℕ → Bool
lost p f m = (p.pages f).is_dirty && ((p.pages f).page_id == m)

-- A page of the file that was free, in a frame as zeros and pinned once. Every other page is seen as
-- before, but for the one that was in the frame: if it was dirty, its content is gone.
abbrev pub Created : BufferPool → Result (BufferPool × Option (ℕ × ℕ)) → Type 0
Created p result =
    (p' : BufferPool) × (f : ℕ) × (id : ℕ) × (result ≡ ok (p', some (f, id)))
    × (is_page_free_at p.disk id ≡ ok true)
    × InUse p'.disk id
    × (lookup id p'.page_table ≡ some f)
    × (p'.pages f
        ≡ record { page_data = empty_page_data; page_id = id; pin_count = 1; is_dirty = false })
    × ((m : ℕ)
        → m < max_extents * bitmap_size
        → m ≢ id
        → view p' m ≡ (if lost p f m then empty_page_data else view p m))
    × IsValid p'

module _ (p : BufferPool) (v : IsValid p) (more : p.disk.meta_data.num_extents < max_extents)
    (f : ℕ) (fl : List ℕ) (r : LruReplacer) (s : Spare p f fl r) where
  created_view :
      (id : ℕ) (d : DiskManager) (page : Page)
      → Replaces p f fl r id d page r
      → ((p.pages f).is_dirty ≡ true → d.file (map_page_id (p.pages f).page_id) ≡ empty_page_data)
      → ((p.pages f).is_dirty ≡ false
          → lookup (p.pages f).page_id p.page_table ≡ some f
          → d.file (map_page_id (p.pages f).page_id)
            ≡ p.disk.file (map_page_id (p.pages f).page_id))
      → (m : ℕ) → m < max_extents * bitmap_size
      → m ≢ id
      → view (installed p f fl id d page r) m ≡ (if lost p f m then empty_page_data else view p m)
  created_view id d page x zeroed kept m hm ne = elim (Bool-cases (p.pages f).is_dirty) [
    | inr clean ↦ rw clean (
        installed_view p v f fl r id d page r x
          (λ here. kept clean here ∙ clean_in_file p v f fl r s clean here) m hm ne)
    | inl dirty ↦ elim (ℕ_discrete m (p.pages f).page_id) [
      | yes old ↦
          rw (dirty, old, ==_refl (p.pages f).page_id)
            (installed_view_old p v f fl r id d page r x (λ e. ne (old ∙ e)) ∙ zeroed dirty)
      | no old ↦
          rw (dirty, ==_ne (p.pages f).page_id m (λ e. old (sym e)))
            (installed_view_other p v f fl r id d page r x m hm ne old)
    ]
  ]

  install_page_lem : Created p (install_page (record p { free_list = fl; replacer = r }, some f))
  unfolding install_page
  install_page_lem =
      let (d1, id, allocated, small, was_free, (marks, data_pages, d1_valid)) =
        allocate_page-Marks p.disk v.disk_valid more in
      let (d, wrote, d_valid, states, kept, saved, untouched) =
        write_back_lem d1 (p.pages f) empty_page_data d1_valid (old_in_file p v f fl r s) in
      let at : page_at (record p { free_list = fl; replacer = r }) f ≡ ok (p.pages f) =
        page_at-eq (record p { free_list = fl; replacer = r }) f s.within in
      let page : Page = record {
        page_data = empty_page_data;
        page_id = id;
        pin_count = (p.pages f).pin_count + 1;
        is_dirty = false;
      } in
      let in_use : InUse d id = (small, states id small ∙ marks id small ∙ rw (==_refl id) refl) in
      let x : Replaces p f fl r id d page r = record {
        spare = s;
        missing = missing id was_free;
        disk_valid = d_valid;
        in_use = in_use;
        keeps = λ m u. (u.0, states m u.0 ∙ marks m u.0 ∙ still m id u.1);
        kept = λ m hm ne. kept m hm ne ∙ data_pages m (omega arith);
        named = refl;
        pinned = omega arith;
        queue_valid = s.queue;
        same = λ g. refl;
      } in
      (
        installed p f fl id d page r,
        f,
        id,
        rw (allocated, at, wrote) refl,
        was_free,
        in_use,
        table_self p v f fl r id d page r x,
        set_page_self p.pages f page
            ∙ ap
                (λ (n : ℕ). record {
                  page_data = empty_page_data;
                  page_id = id;
                  pin_count = n;
                  is_dirty = false;
                })
                one_pin,
        created_view id d page x saved (λ clean here.
            ap (λ (t : DiskManager). t.file (map_page_id (p.pages f).page_id)) (untouched clean)
            ∙ data_pages (p.pages f).page_id
                (omega (arith, (v.tabled (p.pages f).page_id f here).2.0))),
        installed-IsValid p v f fl r id d page r x,
      )
    where
      missing : (id : ℕ) → is_page_free_at p.disk id ≡ ok true → lookup id p.page_table ≡ none
      missing id h = elim (Option-cases (lookup id p.page_table)) [
        | inl none_yet ↦ none_yet
        | inr (g, held) ↦ absurd (ground (arith, (v.tabled id g held).2.1))
      ]

      still :
          (m id : ℕ)
          → is_page_free_at p.disk m ≡ ok false
          → (if id == m then ok false else is_page_free_at p.disk m) ≡ ok false
      still m id h = ground arith

      one_pin : (p.pages f).pin_count + 1 ≡ 1
      one_pin = omega (arith, s.unpinned)

-- NewPage in a valid pool over a file that may still grow. It returns null just if every frame is pinned,
-- and changes nothing then. Otherwise it returns a frame with a page of zeros, pinned once, whose id was
-- free in the file and is allocated now; the pool is valid again and every other page is seen as before,
-- except that a dirty page which had to make room is zeros from then on.
pub new_page_lem :
    (p : BufferPool)
    → IsValid p
    → p.disk.meta_data.num_extents < max_extents
    → ((new_page p ≡ ok (p, none)) × ((f : ℕ) → f < p.pool_size → 0 < (p.pages f).pin_count))
      ⊎ Created p (new_page p)
unfolding new_page install_page
new_page_lem p v more = elim (any_unpinned_lem p.pages 0 p.pool_size) [
  | inr (all_pinned, pinned) ↦ inl (rw all_pinned refl, λ f h. pinned f (omega arith) (omega arith))
  | inl (some_idle, _, _, _) ↦ rw some_idle (elim (take_frame_lem p v) [
    | inl (none_left, pinned) ↦ inl (ap install_page none_left, pinned)
    | inr (f, fl, r, taken, s) ↦
        inr (subst (Created p) (sym (ap install_page taken)) (install_page_lem p v more f fl r s))
  ])
]
