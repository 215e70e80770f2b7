-- ===== src/Table/Heap/Insert.antt =====
-- InsertTuple of storage/table_heap.cpp, into the first page of the table.
use wslproject.Base.{
  ℕ, suc, ◌*◌, ◌<◌, ◌≡◌, refl, sym, ap, ◌∙◌, List, none, some, Bool, true, false, ok, err,
  null_pointer, ◌⊎◌, inl, inr, arith, if◌then◌else◌, ◌==◌, ==_refl, ==_ne, Option-cases,
}
use native.Mathlib.Decide.{ℕ_discrete}
use mathlib.Core.Path.{subst, fun_ext}
use wslproject.Base.Assoc.{lookup}
use wslproject.Storage.Disk.{bitmap_size}
use wslproject.Storage.Disk.Extents.{max_extents}
use wslproject.Record.Row.{Row}
use wslproject.Pages.TablePage
use wslproject.Buffer.Pool.{
  BufferPool, Page, page_at, set_page, fetch_page, unpin_page, unpin_found,
}
use wslproject.Buffer.Pool.Valid.{IsValid, view, view_of}
use wslproject.Buffer.Pool.Evict.{page_at-eq}
use wslproject.Buffer.Pool.Fetch.{CleanAt, pins, pins_of, fetch_page_lem}
use wslproject.Buffer.Pool.Install.{set_page_self, set_page_other, some_injective}
use wslproject.Buffer.Pool.Release.{queued}
use wslproject.Buffer.Pool.Touch.{Changes, touched, touched-IsValid}
use wslproject.Table.Heap.{
  TableHeap, frame_data, set_frame_data, try_insert, finish_insert, insert_from, insert_tuple,
}
use wslproject.Table.Heap.Edit.{Edited, NoFrame, release_read, frame_data-eq}
use wslproject.Table.Heap.Access.{IsTablePage}

-- UnpinPage leaves the table alone.
page_table-unpin_page :
    (p p' : BufferPool) (id : ℕ) (is_dirty answer : Bool)
    → unpin_page p id is_dirty ≡ ok (p', answer)
    → p'.page_table ≡ p.page_table
unfolding unpin_page unpin_found page_at
page_table-unpin_page p p' id is_dirty answer h = elim (Option-cases (lookup id p.page_table)) [
  | inl e ↦ ground arith
  | inr (f, e) ↦ ground arith
]

set_page_twice :
    (pages : ℕ → Page) (f : ℕ) (first second : Page)
    → set_page (set_page pages f first) f second ≡ set_page pages f second
unfolding set_page
set_page_twice pages f first second = fun_ext (λ g. twice (g == f) (pages g))
  where
    twice :
        (b : Bool) (old : Page)
        → (if b then second else if b then first else old) ≡ (if b then second else old)
    twice true old = refl
    twice false old = refl

pin_count-pins :
    (p : BufferPool) (id f : ℕ)
    → lookup id p.page_table ≡ some f
    → (p.pages f).pin_count ≡ pins p id
unfolding pins_of
pin_count-pins p id f at = rw at refl

both_true : (b : Bool) → (if b then true else true) ≡ true
both_true true = refl
both_true false = refl

finish_released :
    (p p' : BufferPool) (row : Row) (f id : ℕ) (page : Page) (answer : Bool)
    → page_at p f ≡ ok page
    → page.page_id ≡ id
    → unpin_page p id true ≡ ok (p', answer)
    → finish_insert p row f ≡ ok (p', row, true)
unfolding finish_insert
finish_released p p' row f id page answer at named run = rw (at, named, run) refl

-- A page that nobody pins is written to in its frame, and UnpinPage marks it as dirty.
module _ (p : BufferPool) (v : IsValid p) (id f : ℕ) (at : lookup id p.page_table ≡ some f)
    (idle : (p.pages f).pin_count ≡ 0) (page_data : List ℕ) where
  abbrev unmarked_page : Page
  unmarked_page = record (p.pages f) { page_data = page_data }

  abbrev dirty_page : Page
  dirty_page = record (p.pages f) { page_data = page_data; is_dirty = true }

  written_frame : page_at (set_frame_data p f page_data) f ≡ ok unmarked_page
  written_frame =
      page_at-eq (set_frame_data p f page_data) f ((v.tabled id f at).0)
      ∙ ap ok (set_page_self p.pages f unmarked_page)

  unpin_written :
      unpin_page (set_frame_data p f page_data) id true
      ≡ ok (touched p f p.disk dirty_page p.replacer, false)
  unfolding unpin_page unpin_found
  unpin_written =
      rw (at, written_frame, idle)
        (rw (both_true (p.pages f).is_dirty, set_page_twice p.pages f) refl)

  written_change : Changes p id f p.disk dirty_page p.replacer
  written_change = record {
    at = at;
    disk_valid = v.disk_valid;
    states = λ m h. refl;
    kept = λ m h ne. refl;
    named = (v.tabled id f at).1;
    queue_valid = v.replacer_valid;
    others = λ g ne. refl;
  }

  abbrev written : BufferPool
  written = touched p f p.disk dirty_page p.replacer

  written-IsValid : IsValid written
  written-IsValid =
      touched-IsValid p v id f p.disk dirty_page p.replacer written_change
        (λ q. (idle, λ clean. absurd (not_clean clean))) (inl (queued p v id f at idle))
    where
      not_clean : true ≡ false → ⊥
      not_clean e = cc

  written_view :
      (m : ℕ)
      → m < max_extents * bitmap_size
      → view written m ≡ (if id == m then page_data else view p m)
  unfolding view_of
  written_view m h = elim (ℕ_discrete id m) [
    | yes e ↦
        rw (← e, ==_refl id, at)
          (ap (λ (t : Page). t.page_data) (set_page_self p.pages f dirty_page))
    | no ne ↦ rw (==_ne id m ne) (elim (Option-cases (lookup m p.page_table)) [
      | inl missing ↦ rw missing refl
      | inr (g, held) ↦ rw held (
          ap (λ (t : Page). t.page_data)
            (set_page_other p.pages f g dirty_page (λ e. ne (same_frame m g held e))))
    ])
  ]
    where
      same_frame : (m g : ℕ) → lookup m p.page_table ≡ some g → g ≡ f → id ≡ m
      same_frame m g held e =
          sym (v.tabled id f at).1
          ∙ ap (λ (t : ℕ). (p.pages t).page_id) (sym e)
          ∙ (v.tabled m g held).1

  pins-written : pins written id ≡ pins p id
  unfolding pins_of
  pins-written = rw at (ap (λ (t : Page). t.pin_count) (set_page_self p.pages f dirty_page))

  finish_insert-written :
      (row : Row) → finish_insert (set_frame_data p f page_data) row f ≡ ok (written, row, true)
  finish_insert-written row =
      finish_released (set_frame_data p f page_data) written row f id unmarked_page false
        written_frame ((v.tabled id f at).1) unpin_written

insert_run :
    (p p1 p2 p3 : BufferPool) (heap : TableHeap) (row row' : Row) (before bytes : List ℕ)
    (rounds f : ℕ) (unpinned : Bool)
    → fetch_page p heap.first_page_id ≡ ok (p1, some f)
    → unpin_page p1 heap.first_page_id false ≡ ok (p2, unpinned)
    → frame_data p2 f ≡ ok before
    → TablePage.insert_tuple before row heap.schema ≡ ok (bytes, row', true)
    → finish_insert (set_frame_data p2 f bytes) row' f ≡ ok (p3, row', true)
    → insert_tuple (suc rounds) p heap row ≡ ok (p3, row', true)
unfolding insert_tuple insert_from try_insert
insert_run p p1 p2 p3 heap row row' before bytes rounds f unpinned fetched released page_data filled
      finished =
    rw (fetched, released, page_data, filled, finished) refl

insert_missing :
    (p : BufferPool) (heap : TableHeap) (row : Row) (rounds : ℕ)
    → fetch_page p heap.first_page_id ≡ ok (p, none)
    → lookup heap.first_page_id p.page_table ≡ none
    → insert_tuple rounds p heap row ≡ err null_pointer
unfolding insert_tuple unpin_page unpin_found
insert_missing p heap row rounds run missing = rw (run, missing) refl

-- InsertTuple of a row for which the first page of the table has room, while nobody has the page pinned.
-- Without a frame for the page it follows the null pointer. Otherwise the row and the page are as
-- InsertTuple of the page leaves them, no other page changes, nobody has the page pinned, and the pool
-- is valid, provided that the page has what the file has if it is clean in the pool.
pub insert_tuple_heap :
    (p : BufferPool) (heap : TableHeap) (row row' : Row) (bytes : List ℕ) (rounds : ℕ)
    → IsTablePage p heap.first_page_id
    → pins p heap.first_page_id ≡ 0
    → ((g : ℕ) → lookup heap.first_page_id p.page_table ≡ some g → CleanAt p heap.first_page_id g)
    → TablePage.insert_tuple (view p heap.first_page_id) row heap.schema ≡ ok (bytes, row', true)
    → (NoFrame p heap.first_page_id × (insert_tuple (suc rounds) p heap row ≡ err null_pointer))
      ⊎ ((p' : BufferPool) × (insert_tuple (suc rounds) p heap row ≡ ok (p', row', true))
          × Edited p heap.first_page_id bytes p')
insert_tuple_heap p heap row row' bytes rounds t idle kept inserted =
    elim (fetch_page_lem p heap.first_page_id t.pool t.in_use) [
      | inl (run, missing, pinned) ↦
          inl ((missing, pinned), insert_missing p heap row (suc rounds) run missing)
      | inr (p1, f, run, at, fetched, count, clean, same, v1) ↦
          let (p2, unpinned, released, v2, pins_kept, seen) =
            release_read p p1 heap.first_page_id f at fetched count same v1 (λ g there.
              subst (CleanAt p1 heap.first_page_id) (some_injective f g (sym at ∙ there))
                (clean kept)) in
          let at2 : lookup heap.first_page_id p2.page_table ≡ some f =
            ap (lookup heap.first_page_id)
              (page_table-unpin_page p1 p2 heap.first_page_id false unpinned released)
            ∙ at in
          let first_seen : view p2 heap.first_page_id ≡ view p heap.first_page_id =
            seen heap.first_page_id t.in_use.0 in
          let unpinned_frame : (p2.pages f).pin_count ≡ 0 =
            pin_count-pins p2 heap.first_page_id f at2 ∙ pins_kept ∙ idle in
          inr (
            written p2 v2 heap.first_page_id f at2 unpinned_frame bytes,
            insert_run p p1 p2 (written p2 v2 heap.first_page_id f at2 unpinned_frame bytes) heap
                row row' (view p heap.first_page_id) bytes rounds f unpinned run released
                (frame_data-eq p2 v2 heap.first_page_id f at2 ∙ ap ok first_seen) inserted
                (finish_insert-written p2 v2 heap.first_page_id f at2 unpinned_frame bytes row'),
            (
              written-IsValid p2 v2 heap.first_page_id f at2 unpinned_frame bytes,
              pins-written p2 v2 heap.first_page_id f at2 unpinned_frame bytes ∙ pins_kept,
              (λ m h.
                  written_view p2 v2 heap.first_page_id f at2 unpinned_frame bytes m h
                  ∙ ap (λ (t : List ℕ). if heap.first_page_id == m then bytes else t) (seen m h)),
            ),
          )
    ]
