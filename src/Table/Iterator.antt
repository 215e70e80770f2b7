-- ===== src/Table/Iterator.antt =====
-- storage/table_iterator.cpp, and TableHeap::Begin and End of storage/table_heap.cpp: an iterator is the row
-- that it stands on, or null at the end, which it shares with its copies.
use wslproject.Base.{
  ℕ, zero, suc, Bool, false, Option, none, some, Result, ok, err, ◌>>=◌, not, ◌==◌, if◌then◌else◌,
  assertion, out_of_rounds,
}
use wslproject.Record.Schema.{deref}
use wslproject.Record.Row.{Row, RowId, new_row, rowid_eq, invalid_page_id}
use wslproject.Pages.TablePage.{get_next_page_id, get_first_tuple_rid, get_next_tuple_rid}
use wslproject.Buffer.Pool.{BufferPool, page_at, fetch_page, unpin_page}
use wslproject.Table.Heap.{TableHeap, frame_data, get_tuple}

-- operator== and operator!=, which follow the rows.
unfoldable pub iterator_eq : Option Row → Option Row → Result Bool
iterator_eq a b = do left ← deref a; right ← deref b; ok (rowid_eq left.rid right.rid)

unfoldable pub iterator_ne : Option Row → Option Row → Result Bool
iterator_ne a b = do same ← iterator_eq a b; ok (not same)

-- operator* and operator->
abbrev pub current : Option Row → Result Row
current none = err assertion
current (some row) = ok row

-- `new Row(rid)` and GetTuple
unfoldable pub read_at : BufferPool → TableHeap → RowId → Result (BufferPool × Option Row)
read_at p heap rid = do (released, row, _) ← get_tuple p heap (new_row rid); ok (released, some row)

-- The loop of Begin, for at most `rounds` pages: the address of the first row, if there is one. The source
-- never sets `isFound` when the table has no page; it is taken as false then.
unfoldable pub first_from : ℕ → BufferPool → ℕ → Result (BufferPool × Option RowId)
first_from zero p page_id = if page_id == invalid_page_id then ok (p, none) else err out_of_rounds
first_from (suc rounds) p page_id = if page_id == invalid_page_id then ok (p, none) else do
  (fetched, found) ← fetch_page p page_id
  frame ← deref found
  page_data ← frame_data fetched frame
  (rid, is_found) ← get_first_tuple_rid page_data
  (released, _) ← unpin_page fetched page_id false
  after ← frame_data released frame
  next_page_id ← get_next_page_id after
  let rest : Result (BufferPool × Option RowId) = first_from rounds released next_page_id
  if is_found then ok (released, some rid) else rest

-- Begin
unfoldable pub begin : ℕ → BufferPool → TableHeap → Result (BufferPool × Option Row)
unfolding first_from
begin rounds p heap = do
  (searched, found) ← first_from rounds p heap.first_page_id
  elim found [ none ↦ ok (searched, none) | some rid ↦ read_at searched heap rid ]

-- End
abbrev pub end : Option Row
end = none

-- The loop of operator++ over the pages behind the one in `frame`, for at most `rounds` of them: the next
-- address, if there is one, and the id of the page that is given back at the end.
unfoldable pub next_from : ℕ → BufferPool → ℕ → ℕ → Result (BufferPool × Option RowId × ℕ)
next_from zero p frame page_id = err out_of_rounds
next_from (suc rounds) p frame page_id = do
  page_data ← frame_data p frame
  next_page_id ← get_next_page_id page_data
  if next_page_id == invalid_page_id then ok (p, none, page_id) else do
    curr ← page_at p frame
    (released, _) ← unpin_page p curr.page_id false
    released_data ← frame_data released frame
    fetched_id ← get_next_page_id released_data
    (fetched, found) ← fetch_page released fetched_id
    next_frame ← deref found
    next_data ← frame_data fetched next_frame
    (rid, is_found) ← get_first_tuple_rid next_data
    let rest : Result (BufferPool × Option RowId × ℕ) =
        next_from rounds fetched next_frame curr.page_id
    if is_found then ok (fetched, some rid, curr.page_id) else rest

-- The end of operator++: the row that the iterator stands on from then on.
unfoldable pub arrive : BufferPool → TableHeap → Option RowId → Result (BufferPool × Option Row)
arrive p heap none = ok (p, none)
arrive p heap (some rid) = read_at p heap rid

-- operator++, with the page of the row found.
unfoldable pub advance_in :
    ℕ → BufferPool → TableHeap → Row → Option ℕ → Result (BufferPool × Option Row)
unfolding next_from
advance_in rounds p heap row none = err assertion
advance_in rounds p heap row (some frame) = do
  page_data ← frame_data p frame
  (next, more) ← get_next_tuple_rid page_data row.rid
  if more
      then (do
        (read, updated, _) ← get_tuple p heap (record row { rid = next })
        (released, _) ← unpin_page read row.rid.page_id false
        ok (released, some updated))
      else do
        (searched, found, page_id) ← next_from rounds p frame row.rid.page_id
        (arrived, row') ← arrive searched heap found
        (released, _) ← unpin_page arrived page_id false
        ok (released, row')

-- operator++, of the iterator itself
unfoldable pub advance : ℕ → BufferPool → TableHeap → Option Row → Result (BufferPool × Option Row)
advance rounds p heap iterator = do
  row ← deref iterator
  (fetched, found) ← fetch_page p row.rid.page_id
  advance_in rounds fetched heap row found
