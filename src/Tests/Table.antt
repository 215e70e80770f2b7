-- ===== src/Tests/Table.antt =====
-- A table whose only page is in the pool, with one row of one number (storage/table_heap.cpp).
use wslproject.Base.{
  ℕ, ◌<◌, ◌≡◌, refl, sym, ap, ◌∙◌, Bool, true, false, List, [], ◌∷◌, ◌++◌, some, replicate, Result,
  ok, err, null_pointer, ◌⊎◌, arith,
}
use mathlib.Core.Path.{subst}
use wslproject.Base.Assoc.{lookup}
use wslproject.Record.Types.{serialize_as, serialized_size_as}
use wslproject.Buffer.Pool.Install.{some_injective, true-false}
use wslproject.Base.Bytes.{write_u32}
use wslproject.Base.Memory.{word, load_u32, store_u32, store, splice}
use wslproject.Storage.Disk.{map_page_id}
use wslproject.Buffer.Lru
use wslproject.Buffer.Lru.{LruReplacer, unpin}
use wslproject.Buffer.Pool.{BufferPool, new_pool, page_at, set_page, unpin_page, unpin_found}
use wslproject.Buffer.Pool.Valid.{IsValid, InUse, view, view_of}
use wslproject.Buffer.Pool.Fetch.{pins, pins_of}
use wslproject.Record.Row.{Row, new_row, serialize_row, row_serialized_size}
use wslproject.Pages.TablePage
use wslproject.Pages.TablePage.Layout
use wslproject.Pages.TablePage.Layout.{count}
use wslproject.Pages.TablePage.Read.{IsRowOf}
use wslproject.Table.Heap.{TableHeap, set_frame_data, mark_delete, get_tuple, insert_tuple}
use wslproject.Table.Heap.Edit.{Edited, NoFrame, release_edited}
use wslproject.Table.Heap.Access.{IsTablePage, Reads, mark_delete_heap, get_tuple_heap}
use wslproject.Table.Heap.Insert.{insert_tuple_heap}
use wslproject.Tests.Storage.{one_disk-in_use}
use wslproject.Tests.Buffer.{full_pool, full_pool-IsValid}
use wslproject.Tests.Record.{int_of}
use wslproject.Tests.TablePage.{
  numbers, number_row, number_bytes, one_tuple, one_tuple-IsValid, tuple_is_row, first, first-given,
}

abbrev table_pool : BufferPool
table_pool = record full_pool {
  pages =
      set_page (set_page full_pool.pages 0 (record (full_pool.pages 0) { page_data = one_tuple })) 0
        (record { page_data = one_tuple; page_id = 0; pin_count = 0; is_dirty = true });
  replacer = unpin full_pool.replacer 0;
}

table_pool-eq : unpin_page (set_frame_data full_pool 0 one_tuple) 0 true ≡ ok (table_pool, true)
unfolding unpin_page unpin_found page_at lookup set_page unpin Lru.unpin_found new_pool
table_pool-eq = refl

pool_or : BufferPool → Result (BufferPool × Bool) → BufferPool
pool_or p (ok x) = x.0
pool_or p (err e) = p

table_pool-IsValid : IsValid table_pool
unfolding pool_or pins_of lookup set_page
table_pool-IsValid =
    let (p, _, e, v, _, _) =
      release_edited full_pool full_pool-IsValid 0 0 refl one_tuple (omega arith) in
    subst IsValid (ap (pool_or full_pool) (sym e ∙ table_pool-eq)) v

page-InUse : InUse table_pool.disk 0
page-InUse = (omega arith, one_disk-in_use)

page_view : view table_pool 0 ≡ one_tuple
unfolding view_of lookup set_page
page_view = refl

page-IsTablePage : IsTablePage table_pool 0
unfolding view_of lookup set_page word write_u32
page-IsTablePage = record {
  pool = table_pool-IsValid;
  in_use = page-InUse;
  page = one_tuple-IsValid;
  named = refl;
}

abbrev number_heap : TableHeap
number_heap = record { first_page_id = 0; schema = numbers }

mark_delete_heap_example :
    (NoFrame table_pool 0 × (mark_delete table_pool first ≡ ok (table_pool, false)))
    ⊎ ((p' : BufferPool) × (bytes : List ℕ) × (marked : Bool) × (TablePage.mark_delete
            (view table_pool 0)
            first
          ≡ ok (bytes, marked))
        × (mark_delete table_pool first ≡ ok (p', true))
        × Edited table_pool 0 bytes p')
mark_delete_heap_example = mark_delete_heap table_pool first page-IsTablePage

idle : pins table_pool 0 ≡ 0
unfolding pins_of lookup set_page
idle = refl

rows :
    (bytes : List ℕ)
    → Layout.view (view table_pool 0) 0 ≡ some (false, bytes)
    → IsRowOf numbers (number_row 7) bytes
rows bytes e =
    tuple_is_row bytes (subst (λ (t : List ℕ). Layout.view t 0 ≡ some (false, bytes)) page_view e)

kept :
    (g : ℕ)
    → lookup 0 table_pool.page_table ≡ some g
    → (table_pool.pages g).is_dirty ≡ false
    → (table_pool.pages g).page_data ≡ table_pool.disk.file (map_page_id 0)
unfolding lookup set_page
kept g at clean =
    let here : 0 ≡ g = some_injective 0 g at in
    let dirty : true ≡ false =
      subst (λ (t : ℕ). (table_pool.pages t).is_dirty ≡ false) (sym here) clean in
    absurd (true-false refl dirty)

abbrev placed_row : Row
placed_row = record { rid = record { page_id = 0; slot_num = 1 }; fields = int_of 8 ∷ [] }

abbrev two_tuples : List ℕ
two_tuples =
    write_u32 0
    ++ (write_u32 0
        ++ (write_u32 4096
            ++ (write_u32 4294967295
                ++ (write_u32 4062
                    ++ (write_u32 2
                        ++ (write_u32 4079
                            ++ (write_u32 17
                                ++ (write_u32 4062
                                    ++ (write_u32 17
                                        ++ (replicate 4022 0
                                            ++ (number_bytes 8 ++ number_bytes 7)))))))))))

inserts :
    TablePage.insert_tuple one_tuple (number_row 8) numbers ≡ ok (two_tuples, placed_row, true)
unfolding TablePage.insert_tuple TablePage.insert_found TablePage.insert_at TablePage.find_free_slot
    TablePage.get_free_space_remaining load_u32 word store_u32 store write_u32 serialize_row
    serialize_as row_serialized_size serialized_size_as splice
inserts = refl

one_slot : 0 < count one_tuple
unfolding word write_u32
one_slot = omega arith

get_tuple_heap_example :
    (NoFrame table_pool 0
      × (get_tuple table_pool number_heap (new_row first) ≡ ok (table_pool, new_row first, false)))
    ⊎ Reads table_pool number_heap first
get_tuple_heap_example =
    get_tuple_heap table_pool number_heap first (number_row 7) page-IsTablePage first-given rows
      kept

insert_tuple_heap_example :
    (NoFrame table_pool 0
      × (insert_tuple 1 table_pool number_heap (number_row 8) ≡ err null_pointer))
    ⊎ ((p' : BufferPool) × (insert_tuple 1 table_pool number_heap (number_row 8)
          ≡ ok (p', placed_row, true))
        × Edited table_pool 0 two_tuples p')
insert_tuple_heap_example =
    insert_tuple_heap table_pool number_heap (number_row 8) placed_row two_tuples 0 page-IsTablePage
      idle kept
      (ap (λ (t : List ℕ). TablePage.insert_tuple t (number_row 8) numbers) page_view ∙ inserts)
