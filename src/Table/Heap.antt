-- ===== src/Table/Heap.antt =====
-- storage/table_heap.cpp and include/storage/table_heap.h: a table is a chain of table pages in the buffer
-- pool. A pointer to a page is its frame, and writes go to the frame's bytes whatever page it holds by
-- then, as they do in the source. The latches of the pages, the transaction and the log are not
-- modelled.
pub mod Edit
pub mod Access
pub mod Stuck
pub mod Insert
use wslproject.Base.{
  ℕ, zero, suc, ◌+◌, ◌^◌, Bool, true, false, List, Option, none, some, Result, ok, err, ◌>>=◌, ◌>>◌,
  assert, ltb, not, ◌==◌, if◌then◌else◌, null_pointer, assertion, out_of_rounds,
}
use wslproject.Record.Schema.{Schema, deref}
use wslproject.Record.Row.{Row, RowId, new_row, invalid_page_id, row_serialized_size}
use wslproject.Pages.TablePage
use wslproject.Pages.TablePage.{get_next_page_id, set_next_page_id, get_table_page_id, assert_rid}
use wslproject.Buffer.Pool.{
  BufferPool, Page, page_at, set_page, fetch_page, unpin_page, new_page, delete_page,
}

pub record TableHeap : Type 0 where
  pub first_page_id : ℕ
  pub schema : Schema

-- GetData of a page of the pool, and a write to it.
abbrev pub frame_data : BufferPool → ℕ → Result (List ℕ)
frame_data p frame = do page ← page_at p frame; ok page.page_data

abbrev pub set_frame_data : BufferPool → ℕ → List ℕ → BufferPool
set_frame_data p frame page_data = record p {
  pages = set_page p.pages frame (record (p.pages frame) { page_data = page_data });
}

-- The constructor that makes the first page: `TableHeap::Create(buffer_pool_manager, schema, …)`.
unfoldable pub create : BufferPool → Schema → Result (BufferPool × TableHeap)
create p schema = do
  (made, new) ← new_page p
  (frame, first_page_id) ← elim new [ none ↦ err assertion | some pair ↦ ok pair ]
  page_data ← frame_data made frame
  started ← TablePage.init page_data first_page_id 4096
  (released, _) ← unpin_page (set_frame_data made frame started) first_page_id true
  ok (released, record { first_page_id = first_page_id; schema = schema })

-- MarkDelete, with the page found.
unfoldable pub mark_delete_in : BufferPool → RowId → Option ℕ → Result (BufferPool × Bool)
mark_delete_in p rid none = ok (p, false)
mark_delete_in p rid (some frame) = do
  page_data ← frame_data p frame
  (marked, _) ← TablePage.mark_delete page_data rid
  page_id ← get_table_page_id marked
  (released, _) ← unpin_page (set_frame_data p frame marked) page_id true
  ok (released, true)

-- MarkDelete
unfoldable pub mark_delete : BufferPool → RowId → Result (BufferPool × Bool)
mark_delete p rid = do (fetched, found) ← fetch_page p rid.page_id; mark_delete_in fetched rid found

-- RollbackDelete
unfoldable pub rollback_delete_in : BufferPool → RowId → Option ℕ → Result BufferPool
rollback_delete_in p rid none = err assertion
rollback_delete_in p rid (some frame) = do
  page_data ← frame_data p frame
  restored ← TablePage.rollback_delete page_data rid
  page_id ← get_table_page_id restored
  (released, _) ← unpin_page (set_frame_data p frame restored) page_id true
  ok released

unfoldable pub rollback_delete : BufferPool → RowId → Result BufferPool
rollback_delete p rid = do
  (fetched, found) ← fetch_page p rid.page_id
  rollback_delete_in fetched rid found

-- UpdateTuple, whose test `if (currPg)` leaves when there is a page, and goes on with the null pointer
-- when there is none: UpdateTuple of the page looks at the two rows before it follows the pointer.
unfoldable pub update_tuple_in :
    BufferPool → TableHeap → Row → RowId → Option ℕ → Result (BufferPool × Bool)
update_tuple_in p heap row rid (some frame) = ok (p, false)
update_tuple_in p heap row rid none = do
  assert_rid (new_row rid)
  serialized_size ← row_serialized_size row heap.schema
  assert (ltb 0 serialized_size)
  err null_pointer

unfoldable pub update_tuple : BufferPool → TableHeap → Row → RowId → Result (BufferPool × Bool)
update_tuple p heap row rid = do
  (fetched, found) ← fetch_page p rid.page_id
  update_tuple_in fetched heap row rid found

-- ApplyDelete, with the same test.
unfoldable pub apply_delete_in : BufferPool → Option ℕ → Result BufferPool
apply_delete_in p (some frame) = ok p
apply_delete_in p none = err null_pointer

unfoldable pub apply_delete : BufferPool → RowId → Result BufferPool
apply_delete p rid = do (fetched, found) ← fetch_page p rid.page_id; apply_delete_in fetched found

-- GetTuple: the row, and the answer.
unfoldable pub get_tuple_in :
    BufferPool → TableHeap → Row → ℕ → Option ℕ → Result (BufferPool × Row × Bool)
get_tuple_in p heap row page_id none = ok (p, row, false)
get_tuple_in p heap row page_id (some frame) = do
  page_data ← frame_data p frame
  (read, answer) ← TablePage.get_tuple page_data row heap.schema
  (released, _) ← unpin_page p page_id false
  ok (released, read, answer)

unfoldable pub get_tuple : BufferPool → TableHeap → Row → Result (BufferPool × Row × Bool)
get_tuple p heap row = do
  (fetched, found) ← fetch_page p row.rid.page_id
  get_tuple_in fetched heap row row.rid.page_id found

-- The body of the loop of InsertTuple for a page that has no room and is the last one: a new page is made
-- and linked, and the row is inserted into it. `none` says that there was no page to be had.
unfoldable pub extend : BufferPool → TableHeap → Row → ℕ → Result (BufferPool × Row × Option ℕ)
extend p heap row curr_page = do
  (made, new) ← new_page p
  elim new [
    | none ↦ ok (made, row, none)
    | some (target_page, next_page_id) ↦
        if next_page_id == invalid_page_id then ok (made, row, none) else do
          curr ← page_at made curr_page
          target_data ← frame_data made target_page
          started ← TablePage.init target_data next_page_id curr.page_id
          let with_target : BufferPool = set_frame_data made target_page started
          target ← page_at with_target target_page
          curr_data ← frame_data with_target curr_page
          linked ← set_next_page_id curr_data target.page_id
          let with_link : BufferPool = set_frame_data with_target curr_page linked
          free_data ← frame_data with_link target_page
          (filled, placed, _) ← TablePage.insert_tuple free_data row heap.schema
          ok (set_frame_data with_link target_page filled, placed, some next_page_id)
  ]

-- The end of InsertTuple, after the loop.
unfoldable pub finish_insert : BufferPool → Row → ℕ → Result (BufferPool × Row × Bool)
finish_insert p row curr_page = do
  curr ← page_at p curr_page
  (released, _) ← unpin_page p curr.page_id true
  ok (released, row, true)

-- The last two statements of the loop of InsertTuple: the next page is fetched, and given back.
unfoldable pub go_to : BufferPool → ℕ → Result (BufferPool × ℕ)
go_to p next_page_id = do
  (fetched, found) ← fetch_page p next_page_id
  frame ← deref found
  curr ← page_at fetched frame
  (released, _) ← unpin_page fetched curr.page_id false
  ok (released, frame)

-- One evaluation of the loop's test: the row is inserted into the current page, if it has room.
unfoldable pub try_insert : BufferPool → TableHeap → Row → ℕ → Result (BufferPool × Row × Bool)
try_insert p heap row curr_page = do
  page_data ← frame_data p curr_page
  (filled, placed, inserted) ← TablePage.insert_tuple page_data row heap.schema
  ok (set_frame_data p curr_page filled, placed, inserted)

-- Where the loop goes on, if the current page has no room: the row and the next page, or `none` when
-- there is no page to be had.
unfoldable pub next_page : BufferPool → TableHeap → Row → ℕ → Result (BufferPool × Row × Option ℕ)
unfolding extend
next_page p heap row curr_page = do
  page_data ← frame_data p curr_page
  next_page_id ← get_next_page_id page_data
  if next_page_id == invalid_page_id
      then extend p heap row curr_page
      else ok (p, row, some next_page_id)

-- The loop of InsertTuple, for at most `rounds` pages.
unfoldable pub insert_from : ℕ → BufferPool → TableHeap → Row → ℕ → Result (BufferPool × Row × Bool)
insert_from zero p heap row curr_page = err out_of_rounds
insert_from (suc rounds) p heap row curr_page = do
  (tried, placed, inserted) ← try_insert p heap row curr_page
  if inserted then finish_insert tried placed curr_page else do
    (linked, row', next) ← next_page tried heap placed curr_page
    elim next [
      | none ↦ ok (linked, row', false)
      | some next_page_id ↦ do
        (released, frame) ← go_to linked next_page_id
        insert_from rounds released heap row' frame
    ]

-- InsertTuple
unfoldable pub insert_tuple : ℕ → BufferPool → TableHeap → Row → Result (BufferPool × Row × Bool)
unfolding insert_from
insert_tuple rounds p heap row = do
  (fetched, found) ← fetch_page p heap.first_page_id
  (released, _) ← unpin_page fetched heap.first_page_id false
  frame ← deref found
  insert_from rounds released heap row frame

-- DeleteTable of a page that is not INVALID_PAGE_ID and of those behind it, for at most `rounds` pages.
unfoldable pub delete_from : ℕ → BufferPool → ℕ → Result BufferPool
delete_from zero p page_id = err out_of_rounds
delete_from (suc rounds) p page_id = do
  (fetched, found) ← fetch_page p page_id
  frame ← deref found
  page_data ← frame_data fetched frame
  next_page_id ← get_next_page_id page_data
  rest ←
      (if next_page_id == invalid_page_id
        then ok fetched
        else delete_from rounds fetched next_page_id)
  (released, _) ← unpin_page rest page_id false
  (deleted, _) ← delete_page released page_id
  ok deleted

-- DeleteTable. If there is no first page either, it calls itself without end.
unfoldable pub delete_table : ℕ → BufferPool → TableHeap → ℕ → Result BufferPool
unfolding delete_from
delete_table rounds p heap page_id =
    if not (page_id == invalid_page_id)
    then delete_from rounds p page_id
    else if heap.first_page_id == invalid_page_id
    then err out_of_rounds
    else delete_from rounds p heap.first_page_id

-- The loop of FreeTableHeap, for at most `rounds` pages.
unfoldable pub free_from : ℕ → BufferPool → ℕ → Result BufferPool
free_from zero p next_page_id = if next_page_id == invalid_page_id then ok p else err out_of_rounds
free_from (suc rounds) p next_page_id = if next_page_id == invalid_page_id then ok p else do
  (fetched, found) ← fetch_page p next_page_id
  frame ← elim found [ none ↦ err assertion | some f ↦ ok f ]
  page_data ← frame_data fetched frame
  after ← get_next_page_id page_data
  (released, _) ← unpin_page fetched next_page_id false
  (deleted, _) ← delete_page released next_page_id
  free_from rounds deleted after

-- FreeTableHeap
unfoldable pub free_table_heap : ℕ → BufferPool → TableHeap → Result BufferPool
unfolding free_from
free_table_heap rounds p heap = free_from rounds p heap.first_page_id
