-- ===== src/Table/Heap/Access.antt =====
-- MarkDelete, RollbackDelete and GetTuple of storage/table_heap.cpp.
use wslproject.Base.{
  ℕ, ◌*◌, ◌<◌, ◌≡◌, ◌≢◌, refl, sym, ap, ◌∙◌, List, some, Bool, true, false, ok, err, assertion, ◌⊎◌,
  inl, inr, arith,
}
use mathlib.Core.Path.{subst}
use wslproject.Base.Assoc.{lookup}
use wslproject.Buffer.Pool.Install.{some_injective}
use wslproject.Base.Memory.{word, load_u32, load_u32-eq}
use wslproject.Storage.Disk.{bitmap_size}
use wslproject.Storage.Disk.Extents.{max_extents}
use wslproject.Record.Row.{Row, RowId, new_row, rowid_get, invalid_rowid}
use wslproject.Pages.TablePage
use wslproject.Pages.TablePage.Layout
use wslproject.Pages.TablePage.Layout.{count}
use wslproject.Pages.TablePage.Mark.{mark_delete_lem}
use wslproject.Pages.TablePage.Rollback.{rollback_delete_lem}
use wslproject.Pages.TablePage.Read.{IsRowOf, get_tuple_lem}
use wslproject.Buffer.Pool.{BufferPool}
use wslproject.Buffer.Pool.Valid.{IsValid, InUse, view}
use wslproject.Buffer.Pool.Fetch.{CleanAt, pins, fetch_page_lem}
use wslproject.Table.Heap.{
  TableHeap, mark_delete, mark_delete_in, rollback_delete, rollback_delete_in, get_tuple,
  get_tuple_in,
}
use wslproject.Table.Heap.Edit.{Edited, NoFrame, fetched_data, edit_fetched, release_read}

-- A page of a valid pool that has a valid table page with its own id in it.
pub record IsTablePage (p : BufferPool) (id : ℕ) : Type 0 where
  pub pool : IsValid p
  pub in_use : InUse p.disk id
  pub page : Layout.IsValid (view p id)
  pub named : word (view p id) 0 ≡ id

-- A page keeps its id in the operations on its tuples.
mark_keeps_id :
    (before : List ℕ) (rid : RowId)
    → Layout.IsValid before
    → (bytes : List ℕ) × (marked : Bool) × (TablePage.mark_delete before rid ≡ ok (bytes, marked))
      × (load_u32 bytes 0 ≡ ok (word before 0))
      × Layout.IsValid bytes
mark_keeps_id before rid v = elim (mark_delete_lem before rid v) [
  | inl (bytes, _, _, run, (_, valid, links)) ↦
      (bytes, true, run, load_u32-eq bytes 0 (omega (arith, valid.sized)) ∙ ap ok links.0, valid)
  | inr (_, run) ↦ (before, false, run, load_u32-eq before 0 (omega (arith, v.sized)), v)
]

-- MarkDelete of the tuple of an allocated table page. Without a frame for the page it answers false and
-- changes nothing. Otherwise the page is as MarkDelete of the page leaves it, no other page changes,
-- and the page is pinned as often as before; the answer is true whether a tuple was marked or not.
pub mark_delete_heap :
    (p : BufferPool) (rid : RowId)
    → IsTablePage p rid.page_id
    → (NoFrame p rid.page_id × (mark_delete p rid ≡ ok (p, false)))
      ⊎ ((p' : BufferPool) × (bytes : List ℕ) × (marked : Bool) × (TablePage.mark_delete
              (view p rid.page_id)
              rid
            ≡ ok (bytes, marked))
          × (mark_delete p rid ≡ ok (p', true))
          × Edited p rid.page_id bytes p')
unfolding mark_delete mark_delete_in
mark_delete_heap p rid t = elim (fetch_page_lem p rid.page_id t.pool t.in_use) [
  | inl (run, missing, pinned) ↦ inl ((missing, pinned), rw run refl)
  | inr (p1, f, run, at, fetched, count, _, same, v1) ↦
      let (bytes, marked, done, page_id, valid) = mark_keeps_id (view p rid.page_id) rid t.page in
      let (p', answer, released, edited) =
        edit_fetched p p1 rid.page_id f at fetched count same v1 bytes in
      inr (
        p',
        bytes,
        marked,
        done,
        rw
            (
              run,
              fetched_data p p1 rid.page_id f at fetched count same v1,
              done,
              page_id,
              t.named,
              released,
            )
            refl,
        edited,
      )
]

-- RollbackDelete of the tuple of a slot in use of an allocated table page. Without a frame for the page an
-- assertion fails. Otherwise the page is as RollbackDelete of the page leaves it, no other page
-- changes, and the page is pinned as often as before.
pub rollback_delete_heap :
    (p : BufferPool) (rid : RowId)
    → IsTablePage p rid.page_id
    → rid.slot_num < count (view p rid.page_id)
    → (NoFrame p rid.page_id × (rollback_delete p rid ≡ err assertion))
      ⊎ ((p' : BufferPool) × (bytes : List ℕ) × (TablePage.rollback_delete (view p rid.page_id) rid
            ≡ ok bytes)
          × (rollback_delete p rid ≡ ok p')
          × Edited p rid.page_id bytes p')
unfolding rollback_delete rollback_delete_in
rollback_delete_heap p rid t h = elim (fetch_page_lem p rid.page_id t.pool t.in_use) [
  | inl (run, missing, pinned) ↦ inl ((missing, pinned), rw run refl)
  | inr (p1, f, run, at, fetched, count, _, same, v1) ↦
      elim (rollback_delete_lem (view p rid.page_id) rid t.page) [
        | inl (beyond, _) ↦ absurd (omega arith)
        | inr (bytes, _, done, (_, valid, links)) ↦
            let (p', answer, released, edited) =
              edit_fetched p p1 rid.page_id f at fetched count same v1 bytes in
            inr (
              p',
              bytes,
              done,
              rw
                  (
                    run,
                    fetched_data p p1 rid.page_id f at fetched count same v1,
                    done,
                    load_u32-eq bytes 0 (omega (arith, valid.sized)),
                    links.0,
                    t.named,
                    released,
                  )
                  refl,
              edited,
            )
      ]
]

-- GetTuple reads a row as GetTuple of its page does.
abbrev pub Reads : BufferPool → TableHeap → RowId → Type 0
Reads p heap rid =
    (p' : BufferPool) × (row : Row) × (answer : Bool) × (TablePage.get_tuple (view p rid.page_id)
        (new_row rid) heap.schema
      ≡ ok (row, answer))
    × (get_tuple p heap (new_row rid) ≡ ok (p', row, answer))
    × IsValid p'
    × (pins p' rid.page_id ≡ pins p rid.page_id)
    × ((m : ℕ) → m < max_extents * bitmap_size → view p' m ≡ view p m)

-- GetTuple of a row without fields, with an address in an allocated table page. Without a frame for the
-- page it answers false, and nothing changes. Otherwise the row and the answer are those of GetTuple of
-- the page, every page is seen as before and the page is pinned as often, provided that it has what
-- the file has if it is clean in the pool.
pub get_tuple_heap :
    (p : BufferPool) (heap : TableHeap) (rid : RowId) (row : Row)
    → IsTablePage p rid.page_id
    → rowid_get rid ≢ rowid_get invalid_rowid
    → ((bytes : List ℕ)
        → Layout.view (view p rid.page_id) rid.slot_num ≡ some (false, bytes)
        → IsRowOf heap.schema row bytes)
    → ((g : ℕ) → lookup rid.page_id p.page_table ≡ some g → CleanAt p rid.page_id g)
    → (NoFrame p rid.page_id × (get_tuple p heap (new_row rid) ≡ ok (p, new_row rid, false)))
      ⊎ Reads p heap rid
unfolding get_tuple get_tuple_in
get_tuple_heap p heap rid row t given rows kept =
    elim (fetch_page_lem p rid.page_id t.pool t.in_use) [
      | inl (run, missing, pinned) ↦ inl ((missing, pinned), rw run refl)
      | inr (p1, f, run, at, fetched, count, clean, same, v1) ↦
          let (read, answer, done) = read_page in
          let (p', unpinned, released, valid, pins_kept, seen) =
            release_read p p1 rid.page_id f at fetched count same v1 (λ g there.
              subst (CleanAt p1 rid.page_id) (some_injective f g (sym at ∙ there)) (clean kept)) in
          inr (
            p',
            read,
            answer,
            done,
            rw (run, fetched_data p p1 rid.page_id f at fetched count same v1, done, released) refl,
            valid,
            pins_kept,
            seen,
          )
    ]
  where
    read_page :
        (read : Row) × (answer : Bool) × (TablePage.get_tuple
            (view p rid.page_id)
            (new_row rid)
            heap.schema
          ≡ ok (read, answer))
    read_page = elim (get_tuple_lem (view p rid.page_id) heap.schema rid row t.page given rows) [
      | inl (_, _, done) ↦ (row, true, done)
      | inr (_, done) ↦ (new_row rid, false, done)
    ]
