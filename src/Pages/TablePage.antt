-- ===== src/Pages/TablePage.antt =====
-- page/table_page.cpp and include/page/table_page.h: the slotted page of a table, in the bytes of its
-- page. The transaction, the lock manager and the log manager are not used by the source.
pub mod Layout
pub mod Placement
pub mod Placed
pub mod Insert
pub mod Mark
pub mod Rollback
pub mod Moving
pub mod Shift
pub mod Read
pub mod Replacing
pub mod Rewriting
pub mod Update
pub mod Gap
pub mod Remove
pub mod Start
pub mod Iterate
use wslproject.Base.{
  ℕ, zero, suc, ◌+◌, ◌-◌, ◌*◌, ◌/◌, ◌%◌, ◌^◌, Bool, true, false, not, ◌&&◌, ◌||◌, List, [], ◌∷◌,
  Option, none, some, Result, ok, err, out_of_bounds, ◌>>=◌, ◌>>◌, assert, ◌==◌, ltb, leb,
  if◌then◌else◌, length,
}
use wslproject.Base.Bytes.{write_u32}
use wslproject.Base.Memory.{load_u32, store_u32, load, store, load_from}
use wslproject.Record.Schema.{Schema}
use wslproject.Record.Row.{
  Row, RowId, rowid_get, invalid_page_id, invalid_rowid, row_serialized_size, serialize_row,
  deserialize_row,
}
pub use wslproject.Pages.TableFields.{
  get_table_page_id, get_prev_page_id, get_next_page_id, set_prev_page_id, set_next_page_id,
  get_free_space_pointer, set_free_space_pointer, get_tuple_count, set_tuple_count,
  get_tuple_offset_at_slot, set_tuple_offset_at_slot, get_tuple_size, set_tuple_size, delete_bit,
  is_deleted, set_deleted_flag, unset_deleted_flag,
}
unfoldable pub use wslproject.Pages.TableFields.{get_free_space_remaining}

-- Init
unfoldable pub init : List ℕ → ℕ → ℕ → Result (List ℕ)
init p page_id prev_id = do
  with_id ← store_u32 p 0 page_id
  with_prev ← set_prev_page_id with_id prev_id
  with_next ← set_next_page_id with_prev invalid_page_id
  with_space ← set_free_space_pointer with_next 4096
  set_tuple_count with_space 0

-- The loop of InsertTuple from slot `i` on, with `k` rounds left: the first slot of size 0, or the end.
unfoldable pub find_free_slot : List ℕ → ℕ → ℕ → Result ℕ
find_free_slot p i zero = ok i
find_free_slot p i (suc k) =
    let rest = find_free_slot p (i + 1) k in
    do tuple_size ← get_tuple_size p i; if tuple_size == 0 then ok i else rest

-- What InsertTuple does once the slot `i` is found.
unfoldable pub insert_at : List ℕ → Row → Schema → ℕ → ℕ → Result (List ℕ × Row × Bool)
insert_at p row schema i serialized_size = do
  free_space_pointer ← get_free_space_pointer p
  claimed ← set_free_space_pointer p ((free_space_pointer + 2 ^ 32 - serialized_size) % 2 ^ 32)
  start ← get_free_space_pointer claimed
  (bytes, write_bytes) ← serialize_row row schema
  written ← store claimed start bytes
  assert (write_bytes == serialized_size)
  tuple_offset ← get_free_space_pointer written
  with_offset ← set_tuple_offset_at_slot written i tuple_offset
  with_size ← set_tuple_size with_offset i serialized_size
  page_id ← get_table_page_id with_size
  let placed : Row = record row { rid = record { page_id = page_id; slot_num = i } }
  tuple_count ← get_tuple_count with_size
  grown ←
      (if i == tuple_count
        then set_tuple_count with_size ((tuple_count + 1) % 2 ^ 32)
        else ok with_size)
  ok (grown, placed, true)

-- The search for a slot in InsertTuple, and its second test of the space.
unfoldable pub insert_found : List ℕ → Row → Schema → ℕ → Result (List ℕ × Row × Bool)
insert_found p row schema serialized_size = do
  tuple_count ← get_tuple_count p
  i ← find_free_slot p 0 tuple_count
  free ← get_free_space_remaining p
  if i == tuple_count && ltb free (serialized_size + 8)
      then ok (p, row, false)
      else insert_at p row schema i serialized_size

-- InsertTuple: the page, the row, whose address is set, and the answer.
unfoldable pub insert_tuple : List ℕ → Row → Schema → Result (List ℕ × Row × Bool)
unfolding find_free_slot
insert_tuple p row schema = do
  serialized_size ← row_serialized_size row schema
  assert (ltb 0 serialized_size)
  free ← get_free_space_remaining p
  if ltb free (serialized_size + 8)
      then ok (p, row, false)
      else insert_found p row schema serialized_size

-- MarkDelete
unfoldable pub mark_delete : List ℕ → RowId → Result (List ℕ × Bool)
mark_delete p rid = do
  tuple_count ← get_tuple_count p
  if leb tuple_count rid.slot_num then ok (p, false) else do
    tuple_size ← get_tuple_size p rid.slot_num
    if is_deleted tuple_size then ok (p, false) else do
      marked ←
          (if ltb 0 tuple_size
            then set_tuple_size p rid.slot_num (set_deleted_flag tuple_size)
            else ok p)
      ok (marked, true)

-- RollbackDelete
unfoldable pub rollback_delete : List ℕ → RowId → Result (List ℕ)
rollback_delete p rid = do
  tuple_count ← get_tuple_count p
  assert (ltb rid.slot_num tuple_count)
  tuple_size ← get_tuple_size p rid.slot_num
  if is_deleted tuple_size
      then set_tuple_size p rid.slot_num (unset_deleted_flag tuple_size)
      else ok p

-- The end of GetTuple and the copy of the old value in UpdateTuple: the row of `tuple_size` bytes.
unfoldable pub read_tuple : List ℕ → Row → Schema → ℕ → ℕ → Result Row
read_tuple p row schema slot_num tuple_size = do
  tuple_offset ← get_tuple_offset_at_slot p slot_num
  buf ← load_from p tuple_offset
  (read, read_bytes) ← deserialize_row row buf schema
  assert (tuple_size == read_bytes)
  ok read

abbrev pub assert_rid : Row → Result (Unit {0})
assert_rid row = assert (not (rowid_get row.rid == rowid_get invalid_rowid))

-- GetTuple
unfoldable pub get_tuple : List ℕ → Row → Schema → Result (Row × Bool)
get_tuple p row schema = do
  assert_rid row
  tuple_count ← get_tuple_count p
  if leb tuple_count row.rid.slot_num then ok (row, false) else do
    tuple_size ← get_tuple_size p row.rid.slot_num
    if is_deleted tuple_size
        then ok (row, false)
        else do read ← read_tuple p row schema row.rid.slot_num tuple_size; ok (read, true)

-- The loop of UpdateTuple over the slots from `i` on, with `k` rounds left. `moved` is what the tuples
-- before `bound` move by, modulo 2 ^ 32.
unfoldable pub move_offsets : List ℕ → ℕ → ℕ → ℕ → ℕ → Result (List ℕ)
move_offsets p bound moved i zero = ok p
move_offsets p bound moved i (suc k) = do
  tuple_offset_i ← get_tuple_offset_at_slot p i
  size_i ← get_tuple_size p i
  next ←
      (if ltb 0 size_i && ltb tuple_offset_i bound
        then set_tuple_offset_at_slot p i ((tuple_offset_i + moved) % 2 ^ 32)
        else ok p)
  move_offsets next bound moved (i + 1) k

-- A pointer into the page, moved towards its start.
abbrev pub back : ℕ → ℕ → Result ℕ
back offset n = if ltb offset n then err out_of_bounds else ok (offset - n)

-- What UpdateTuple does to the page when there is room.
unfoldable pub replace_tuple : List ℕ → Row → Schema → ℕ → ℕ → ℕ → ℕ → Result (List ℕ)
replace_tuple p new_row schema slot_num tuple_size tuple_offset serialized_size = do
  free_space_pointer ← get_free_space_pointer p
  assert (leb free_space_pointer tuple_offset)
  tuples ← load p free_space_pointer (tuple_offset - free_space_pointer)
  moved_start ← back (free_space_pointer + tuple_size) serialized_size
  moved ← store p moved_start tuples
  with_space ←
      set_free_space_pointer moved
        ((free_space_pointer + tuple_size + 2 ^ 32 - serialized_size) % 2 ^ 32)
  (bytes, _) ← serialize_row new_row schema
  tuple_start ← back (tuple_offset + tuple_size) serialized_size
  written ← store with_space tuple_start bytes
  with_size ← set_tuple_size written slot_num serialized_size
  tuple_count ← get_tuple_count with_size
  move_offsets with_size ((tuple_offset + tuple_size) % 2 ^ 32)
      (tuple_size + 2 ^ 32 - serialized_size) 0 tuple_count

-- UpdateTuple: the page, the old row with the old value, and the answer.
unfoldable pub update_tuple : List ℕ → Row → Row → Schema → Result (List ℕ × Row × Bool)
unfolding move_offsets
update_tuple p new_row old_row schema = do
  assert_rid old_row
  serialized_size ← row_serialized_size new_row schema
  assert (ltb 0 serialized_size)
  tuple_count ← get_tuple_count p
  if leb tuple_count old_row.rid.slot_num then ok (p, old_row, false) else do
    tuple_size ← get_tuple_size p old_row.rid.slot_num
    if is_deleted tuple_size then ok (p, old_row, false) else do
      free ← get_free_space_remaining p
      if ltb ((free + tuple_size) % 2 ^ 32) serialized_size then ok (p, old_row, false) else do
        tuple_offset ← get_tuple_offset_at_slot p old_row.rid.slot_num
        old ← read_tuple p old_row schema old_row.rid.slot_num tuple_size
        updated ←
            replace_tuple p new_row schema old_row.rid.slot_num tuple_size tuple_offset
              serialized_size
        ok (updated, old, true)

-- The loop of ApplyDelete over the slots from `i` on, with `k` rounds left.
unfoldable pub close_gap : List ℕ → ℕ → ℕ → ℕ → ℕ → Result (List ℕ)
close_gap p tuple_offset tuple_size i zero = ok p
close_gap p tuple_offset tuple_size i (suc k) = do
  tuple_offset_i ← get_tuple_offset_at_slot p i
  size_i ← get_tuple_size p i
  next ←
      (if not (size_i == 0) && ltb tuple_offset_i tuple_offset
        then set_tuple_offset_at_slot p i ((tuple_offset_i + tuple_size) % 2 ^ 32)
        else ok p)
  close_gap next tuple_offset tuple_size (i + 1) k

-- ApplyDelete
unfoldable pub apply_delete : List ℕ → RowId → Result (List ℕ)
unfolding close_gap
apply_delete p rid = do
  old_count ← get_tuple_count p
  assert (ltb rid.slot_num old_count)
  tuple_offset ← get_tuple_offset_at_slot p rid.slot_num
  stored_size ← get_tuple_size p rid.slot_num
  let tuple_size : ℕ =
      if is_deleted stored_size then unset_deleted_flag stored_size else stored_size
  free_space_pointer ← get_free_space_pointer p
  assert (leb free_space_pointer tuple_offset)
  tuples ← load p free_space_pointer (tuple_offset - free_space_pointer)
  moved ← store p (free_space_pointer + tuple_size) tuples
  with_space ← set_free_space_pointer moved ((free_space_pointer + tuple_size) % 2 ^ 32)
  with_size ← set_tuple_size with_space rid.slot_num 0
  count ← get_tuple_count with_size
  with_count ← set_tuple_count with_size ((count + 2 ^ 32 - 1) % 2 ^ 32)
  with_offset ← set_tuple_offset_at_slot with_count rid.slot_num 0
  new_count ← get_tuple_count with_offset
  close_gap with_offset tuple_offset tuple_size 0 new_count

-- The loop of GetFirstTupleRid and GetNextTupleRid: the first slot from `i` on that is not deleted, with
-- `k` rounds left.
unfoldable pub find_live_slot : List ℕ → ℕ → ℕ → Result (Option ℕ)
find_live_slot p i zero = ok none
find_live_slot p i (suc k) =
    let rest = find_live_slot p (i + 1) k in
    do tuple_size ← get_tuple_size p i; if is_deleted tuple_size then rest else ok (some i)

-- `first_rid->Set(…)` and the answer
unfoldable pub rid_found : List ℕ → Option ℕ → Result (RowId × Bool)
rid_found p none = ok (record { page_id = invalid_page_id; slot_num = 0 }, false)
rid_found p (some i) = do
  page_id ← get_table_page_id p
  ok (record { page_id = page_id; slot_num = i }, true)

-- GetFirstTupleRid: `*first_rid`, and the answer.
unfoldable pub get_first_tuple_rid : List ℕ → Result (RowId × Bool)
unfolding find_live_slot
get_first_tuple_rid p = do
  tuple_count ← get_tuple_count p
  found ← find_live_slot p 0 tuple_count
  rid_found p found

-- GetNextTupleRid
unfoldable pub get_next_tuple_rid : List ℕ → RowId → Result (RowId × Bool)
unfolding find_live_slot
get_next_tuple_rid p cur_rid = do
  page_id ← get_table_page_id p
  assert (cur_rid.page_id == page_id)
  tuple_count ← get_tuple_count p
  let start : ℕ = (cur_rid.slot_num + 1) % 2 ^ 32
  found ← find_live_slot p start (tuple_count - start)
  rid_found p found
