-- ===== src/Buffer/Pool/Fetch.antt =====
-- FetchPage of buffer/buffer_pool_manager.cpp.
use wslproject.Base.{
  ℕ, ◌+◌, ◌*◌, ◌<◌, ◌≡◌, ◌≢◌, refl, sym, ap, ◌∙◌, List, Option, none, some, true, false, Result, ok,
  ◌⊎◌, inl, inr, arith, Bool-cases, Option-cases,
}
use native.Mathlib.Decide.{ℕ_discrete}
use mathlib.Core.Path.{subst}
use wslproject.Base.Assoc.{lookup}
use wslproject.Storage.Disk.{DiskManager, bitmap_size, map_page_id}
use wslproject.Storage.Disk.Extents.{max_extents}
use wslproject.Storage.Disk.Contents.{read_page-eq}
use wslproject.Buffer.Lru.{LruReplacer, pin}
use wslproject.Buffer.Lru.Order.{frames, has}
use wslproject.Buffer.Lru.Queue.{pin_lem}
use wslproject.Buffer.Pool.{
  BufferPool, Page, page_at, take_frame, load_page, fetch_found, fetch_page,
}
use wslproject.Buffer.Pool.Valid.{IsValid, InUse, view, view_of}
use wslproject.Buffer.Pool.Frames.{Spare, take_frame_lem}
use wslproject.Buffer.Pool.Install.{
  Replaces, set_page_self, true-false, installed, installed-IsValid, installed_view,
  installed_view_self, table_self,
}
use wslproject.Buffer.Pool.Touch.{Changes, touched, touched-IsValid, touched_view}
use wslproject.Buffer.Pool.Evict.{
  page_at-eq, write_back_lem, pin_other, pin_self, old_in_file, clean_in_file,
}

-- How often a page is pinned.
unfoldable pub pins_of : BufferPool → Option ℕ → ℕ
pins_of p none = 0
pins_of p (some f) = (p.pages f).pin_count

abbrev pub pins : BufferPool → ℕ → ℕ
pins p id = pins_of p (lookup id p.page_table)

-- What is clean in frame `f` has what the file has.
abbrev pub CleanAt : BufferPool → ℕ → ℕ → Type 0
CleanAt p id f = (p.pages f).is_dirty ≡ false → (p.pages f).page_data ≡ p.disk.file (map_page_id id)

-- A frame with the page, pinned once more than before, and every page seen as before; if it is clean, it
-- has what the file has, provided that a clean page in the pool had.
abbrev pub Fetched : BufferPool → ℕ → Result (BufferPool × Option ℕ) → Type 0
Fetched p id result =
    (p' : BufferPool) × (f : ℕ) × (result ≡ ok (p', some f))
    × (lookup id p'.page_table ≡ some f)
    × ((p'.pages f).page_data ≡ view p id)
    × ((p'.pages f).pin_count ≡ pins p id + 1)
    × (((g : ℕ) → lookup id p.page_table ≡ some g → CleanAt p id g) → CleanAt p' id f)
    × ((m : ℕ) → m < max_extents * bitmap_size → view p' m ≡ view p m)
    × IsValid p'

fetch_hit :
    (p : BufferPool) (v : IsValid p) (id f : ℕ)
    → lookup id p.page_table ≡ some f
    → Fetched p id (fetch_page p id)
unfolding fetch_page fetch_found pins_of view_of
fetch_hit p v id f at =
    let (within, named, in_use) = v.tabled id f at in
    let page : Page = record (p.pages f) { pin_count = (p.pages f).pin_count + 1 } in
    let queue : LruReplacer = pin p.replacer f in
    let x : Changes p id f p.disk page queue = record {
      at = at;
      disk_valid = v.disk_valid;
      states = λ m h. refl;
      kept = λ m h ne. refl;
      named = named;
      queue_valid = (pin_lem p.replacer f v.replacer_valid).1;
      others = λ g ne. pin_other p.replacer f g v.replacer_valid ne;
    } in
    let unqueued = pin_self p.replacer f v.replacer_valid in
    (
      touched p f p.disk page queue,
      f,
      rw (at, page_at-eq p f within) refl,
      at,
      rw at (ap (λ (t : Page). t.page_data) (set_page_self p.pages f page)),
      rw at (ap (λ (t : Page). t.pin_count) (set_page_self p.pages f page)),
      (λ kept clean.
          ap (λ (t : Page). t.page_data) (set_page_self p.pages f page)
          ∙ kept f at (sym (ap (λ (t : Page). t.is_dirty) (set_page_self p.pages f page)) ∙ clean)),
      touched_view p v id f p.disk page queue x refl,
      touched-IsValid p v id f p.disk page queue x (λ q. absurd (true-false q unqueued))
          (inr (omega arith)),
    )

-- The page is not in the pool, and frame `f` is taken for it.
module _ (p : BufferPool) (v : IsValid p) (id : ℕ) (missing : lookup id p.page_table ≡ none)
    (in_use : InUse p.disk id) (f : ℕ) (fl : List ℕ) (r : LruReplacer) (s : Spare p f fl r) where
  id_is_not_old : (p.pages f).is_dirty ≡ true → id ≢ (p.pages f).page_id
  id_is_not_old dirty e = elim s.origin [
    | inl (here, _) ↦ at_once (ap (λ (t : ℕ). lookup t p.page_table) e) here
    | inr (_, clean) ↦ true-false dirty clean
  ]
    where
      at_once :
          lookup id p.page_table ≡ lookup (p.pages f).page_id p.page_table
          → lookup (p.pages f).page_id p.page_table ≡ some f
          → ⊥
      at_once a b = ground (arith, missing)

  load_page_lem : Fetched p id (load_page id (record p { free_list = fl; replacer = r }, some f))
  unfolding load_page view_of pins_of
  load_page_lem =
      let (d, wrote, d_valid, states, kept, saved, untouched) =
        write_back_lem p.disk (p.pages f) (p.pages f).page_data v.disk_valid
          (old_in_file p v f fl r s) in
      let at : page_at (record p { free_list = fl; replacer = r }) f ≡ ok (p.pages f) =
        page_at-eq (record p { free_list = fl; replacer = r }) f s.within in
      let page : Page = record {
        page_data = d.file (map_page_id id);
        page_id = id;
        pin_count = (p.pages f).pin_count + 1;
        is_dirty = false;
      } in
      let queue : LruReplacer = pin r f in
      let x : Replaces p f fl r id d page queue = record {
        spare = s;
        missing = missing;
        disk_valid = d_valid;
        in_use = (in_use.0, states id in_use.0 ∙ in_use.1);
        keeps = λ m u. (u.0, states m u.0 ∙ u.1);
        kept = kept;
        named = refl;
        pinned = omega arith;
        queue_valid = (pin_lem r f s.queue).1;
        same = same_queue;
      } in
      let read : d.file (map_page_id id) ≡ view p id = elim (Bool-cases (p.pages f).is_dirty) [
        | inl dirty ↦ rw missing (kept id in_use.0 (id_is_not_old dirty))
        | inr clean ↦
            rw missing (ap (λ (t : DiskManager). t.file (map_page_id id)) (untouched clean))
      ] in
      let old = λ (here : lookup (p.pages f).page_id p.page_table ≡ some f).
        elim (Bool-cases (p.pages f).is_dirty)
          as (λ _. d.file (map_page_id (p.pages f).page_id) ≡ (p.pages f).page_data) [
            | inl dirty ↦ saved dirty
            | inr clean ↦
                ap (λ (t : DiskManager). t.file (map_page_id (p.pages f).page_id)) (untouched clean)
                ∙ clean_in_file p v f fl r s clean here
          ] in
      (
        installed p f fl id d page queue,
        f,
        rw (at, wrote, read_page-eq d id d_valid.whole in_use.0) refl,
        table_self p v f fl r id d page queue x,
        ap (λ (t : Page). t.page_data) (set_page_self p.pages f page) ∙ read,
        ap (λ (t : Page). t.pin_count) (set_page_self p.pages f page)
            ∙ rw missing (omega (arith, s.unpinned)),
        (λ kept clean. ap (λ (t : Page). t.page_data) (set_page_self p.pages f page)),
        (λ m hm. elim (ℕ_discrete m id) [
          | yes e ↦ rw e (installed_view_self p v f fl r id d page queue x ∙ read)
          | no ne ↦ installed_view p v f fl r id d page queue x old m hm ne
        ]),
        installed-IsValid p v f fl r id d page queue x,
      )
    where
      same_queue : (g : ℕ) → has g (frames (pin r f)) ≡ has g (frames r)
      same_queue g = elim (ℕ_discrete g f) [
        | yes e ↦ rw e (pin_self r f s.queue ∙ sym s.not_queued)
        | no ne ↦ pin_other r f g s.queue ne
      ]

fetch_miss :
    (p : BufferPool) (id : ℕ)
    → lookup id p.page_table ≡ none
    → fetch_page p id ≡ load_page id (take_frame p)
unfolding fetch_page fetch_found
fetch_miss p id missing = rw missing refl

-- FetchPage of an allocated page in a valid pool. It returns null only if the page is not in the
-- pool and every frame is pinned, and changes nothing then. Otherwise it returns a frame that has
-- the page, with the content that the page had in the pool or else in the file, pinned once more
-- than before, and clean only if it has what the file has, provided that this held of it in the
-- pool; every page of the pool and the file is seen as before, also the one that had to make room,
-- and the pool is valid again.
pub fetch_page_lem :
    (p : BufferPool) (id : ℕ)
    → IsValid p
    → InUse p.disk id
    → ((fetch_page p id ≡ ok (p, none))
        × (lookup id p.page_table ≡ none)
        × ((f : ℕ) → f < p.pool_size → 0 < (p.pages f).pin_count))
      ⊎ Fetched p id (fetch_page p id)
unfolding load_page
fetch_page_lem p id v in_use = elim (Option-cases (lookup id p.page_table)) [
  | inr (f, at) ↦ inr (fetch_hit p v id f at)
  | inl missing ↦ elim (take_frame_lem p v) [
    | inl (none_left, pinned) ↦
        inl (fetch_miss p id missing ∙ ap (load_page id) none_left, missing, pinned)
    | inr (f, fl, r, taken, s) ↦ inr (
        subst (Fetched p id) (sym (fetch_miss p id missing ∙ ap (load_page id) taken))
          (load_page_lem p v id missing in_use f fl r s))
  ]
]
