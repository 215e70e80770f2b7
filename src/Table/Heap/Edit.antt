-- ===== src/Table/Heap/Edit.antt =====
-- A page that is fetched, written to and given back dirty, as the operations of storage/table_heap.cpp do.
use wslproject.Base.{
  ℕ, ◌+◌, ◌-◌, ◌*◌, ◌<◌, ◌≡◌, refl, sym, ap, ◌∙◌, List, none, some, Bool, true, false, ok, inl, inr,
  arith, Option-cases, if◌then◌else◌, ◌==◌, ==_refl, ==_ne, not,
}
use native.Mathlib.Decide.{ℕ_discrete}
use wslproject.Base.Assoc.{lookup}
use wslproject.Storage.Disk.{bitmap_size}
use wslproject.Storage.Disk.Extents.{max_extents}
use wslproject.Buffer.Pool.{BufferPool, Page, unpin_page}
use wslproject.Buffer.Pool.Valid.{IsValid, view, view_of}
use wslproject.Buffer.Pool.Evict.{page_at-eq}
use wslproject.Buffer.Pool.Fetch.{CleanAt, pins, pins_of}
use wslproject.Buffer.Pool.Install.{set_page_self, set_page_other}
use wslproject.Buffer.Pool.Release.{unpin_page_lem}
use wslproject.Buffer.Pool.Touch.{Changes, touched-IsValid}
use wslproject.Table.Heap.{frame_data, set_frame_data}

-- The pool with `page_data` in the page `id`, every other page seen as before.
abbrev pub Edited : BufferPool → ℕ → List ℕ → BufferPool → Type 0
Edited p id page_data p' =
    IsValid p'
    × (pins p' id ≡ pins p id)
    × ((m : ℕ)
        → m < max_extents * bitmap_size
        → view p' m ≡ (if id == m then page_data else view p m))

-- No frame can be had for a page: it is not in the pool, and every frame is pinned.
abbrev pub NoFrame : BufferPool → ℕ → Type 0
NoFrame p id =
    (lookup id p.page_table ≡ none) × ((f : ℕ) → f < p.pool_size → 0 < (p.pages f).pin_count)

module _ (p : BufferPool) (v : IsValid p) (id f : ℕ) (at : lookup id p.page_table ≡ some f) where
  pub frame_data-eq : frame_data p f ≡ ok (view p id)
  unfolding view_of
  frame_data-eq = rw (page_at-eq p f ((v.tabled id f at).0), at) refl

  module _ (page_data : List ℕ) (pinned : 0 < pins p id) where
    abbrev edited : BufferPool
    edited = set_frame_data p f page_data

    abbrev page : Page
    page = record (p.pages f) { page_data = page_data }

    pin_count_pos : 0 < (p.pages f).pin_count
    unfolding pins_of
    pin_count_pos = rw at at pinned

    edit_change : Changes p id f p.disk page p.replacer
    edit_change = record {
      at = at;
      disk_valid = v.disk_valid;
      states = λ m h. refl;
      kept = λ m h ne. refl;
      named = (v.tabled id f at).1;
      queue_valid = v.replacer_valid;
      others = λ g ne. refl;
    }

    edited-IsValid : IsValid edited
    edited-IsValid =
        touched-IsValid p v id f p.disk page p.replacer edit_change
          (λ q. absurd (omega (arith, pin_count_pos, (v.evictable f q).1))) (inr pin_count_pos)

    pins-edited : pins edited id ≡ pins p id
    unfolding pins_of
    pins-edited = rw at (ap (λ (t : Page). t.pin_count) (set_page_self p.pages f page))

    edited-view :
        (m : ℕ)
        → m < max_extents * bitmap_size
        → view edited m ≡ (if id == m then page_data else view p m)
    unfolding view_of
    edited-view m h = elim (ℕ_discrete id m) [
      | yes e ↦
          rw (← e, ==_refl id, at) (ap (λ (t : Page). t.page_data) (set_page_self p.pages f page))
      | no ne ↦ rw (==_ne id m ne) (elim (Option-cases (lookup m p.page_table)) [
        | inl missing ↦ rw missing refl
        | inr (g, held) ↦ rw held (
            ap (λ (t : Page). t.page_data)
              (set_page_other p.pages f g page (λ e. ne (
                sym (v.tabled id f at).1
                ∙ ap (λ (t : ℕ). (p.pages t).page_id) (sym e)
                ∙ (v.tabled m g held).1))))
      ])
    ]

    -- The page is given back dirty.
    pub release_edited :
        (p' : BufferPool) × (answer : Bool) × (unpin_page edited id true ≡ ok (p', answer))
        × IsValid p'
        × (pins p' id ≡ pins p id - 1)
        × ((m : ℕ)
            → m < max_extents * bitmap_size
            → view p' m ≡ (if id == m then page_data else view p m))
    release_edited =
        elim (unpin_page_lem edited id true edited-IsValid (λ g h e. absurd (dirty g e))) [
          | inl (missing, _) ↦ absurd (never missing)
          | inr (g, there, (p', run, count, _, _, same, valid)) ↦ (
            p',
            not (pins edited id == 0),
            run,
            valid,
            omega (arith, count, pins-edited),
            (λ m h. same m h ∙ edited-view m h),
          )
        ]
      where
        never : lookup id p.page_table ≡ none → ⊥
        never e = cc (e, at)

        dirty : (g : ℕ) → (if (edited.pages g).is_dirty then true else true) ≡ false → ⊥
        dirty g e = ground arith

-- What is read from a fetched page, and what comes of it when it is written to and given back.
module _ (p p1 : BufferPool) (id f : ℕ) (at : lookup id p1.page_table ≡ some f)
    (fetched : (p1.pages f).page_data ≡ view p id) (count : (p1.pages f).pin_count ≡ pins p id + 1)
    (same : (m : ℕ) → m < max_extents * bitmap_size → view p1 m ≡ view p m) (v1 : IsValid p1) where
  pub fetched_data : frame_data p1 f ≡ ok (view p id)
  fetched_data = rw (page_at-eq p1 f ((v1.tabled id f at).0)) (ap ok fetched)

  pins-fetched : pins p1 id ≡ pins p id + 1
  unfolding pins_of
  pins-fetched = rw at count

  pub edit_fetched :
      (page_data : List ℕ)
      → (p' : BufferPool) × (answer : Bool) × (unpin_page (set_frame_data p1 f page_data) id true
          ≡ ok (p', answer))
        × Edited p id page_data p'
  edit_fetched page_data =
      let (p', answer, run, valid, less, seen) =
        release_edited p1 v1 id f at page_data (omega (arith, pins-fetched)) in
      (
        p',
        answer,
        run,
        (
          valid,
          omega (arith, less, pins-fetched),
          (λ m h. seen m h ∙ ap (λ (t : List ℕ). if id == m then page_data else t) (same m h)),
        ),
      )

  -- A page that was only read is given back as it was.
  pub release_read :
      ((g : ℕ) → lookup id p1.page_table ≡ some g → CleanAt p1 id g)
      → (p' : BufferPool) × (answer : Bool) × (unpin_page p1 id false ≡ ok (p', answer))
        × IsValid p'
        × (pins p' id ≡ pins p id)
        × ((m : ℕ) → m < max_extents * bitmap_size → view p' m ≡ view p m)
  release_read kept =
      elim (unpin_page_lem p1 id false v1 (λ g there clean. kept g there (still_clean g clean))) [
        | inl (missing, _) ↦ absurd (never missing)
        | inr (g, there, (p', run, less, _, _, seen, valid)) ↦ (
          p',
          not (pins p1 id == 0),
          run,
          valid,
          omega (arith, less, pins-fetched),
          (λ m h. seen m h ∙ same m h),
        )
      ]
    where
      never : lookup id p1.page_table ≡ none → ⊥
      never e = cc (e, at)

      still_clean :
          (g : ℕ)
          → (if (p1.pages g).is_dirty then true else false) ≡ false
          → (p1.pages g).is_dirty ≡ false
      still_clean g e = ground arith
