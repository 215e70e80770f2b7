-- ===== src/Pages/TableFields.antt =====
-- The fields of a table page, at their offsets: include/page/table_page.h.
use wslproject.Base.{
  ℕ, ◌+◌, ◌-◌, ◌*◌, ◌/◌, ◌%◌, ◌^◌, Bool, not, ◌||◌, List, Result, ok, ◌>>=◌, ◌==◌,
}
use wslproject.Base.Memory.{load_u32, store_u32}

-- The getters and setters of the header.
abbrev pub get_table_page_id : List ℕ → Result ℕ
get_table_page_id p = load_u32 p 0

abbrev pub get_prev_page_id : List ℕ → Result ℕ
get_prev_page_id p = load_u32 p 8

abbrev pub get_next_page_id : List ℕ → Result ℕ
get_next_page_id p = load_u32 p 12

abbrev pub set_prev_page_id : List ℕ → ℕ → Result (List ℕ)
set_prev_page_id p prev_page_id = store_u32 p 8 prev_page_id

abbrev pub set_next_page_id : List ℕ → ℕ → Result (List ℕ)
set_next_page_id p next_page_id = store_u32 p 12 next_page_id

abbrev pub get_free_space_pointer : List ℕ → Result ℕ
get_free_space_pointer p = load_u32 p 16

abbrev pub set_free_space_pointer : List ℕ → ℕ → Result (List ℕ)
set_free_space_pointer p free_space_pointer = store_u32 p 16 free_space_pointer

abbrev pub get_tuple_count : List ℕ → Result ℕ
get_tuple_count p = load_u32 p 20

abbrev pub set_tuple_count : List ℕ → ℕ → Result (List ℕ)
set_tuple_count p tuple_count = store_u32 p 20 tuple_count

abbrev pub get_tuple_offset_at_slot : List ℕ → ℕ → Result ℕ
get_tuple_offset_at_slot p slot_num = load_u32 p (24 + 8 * slot_num)

abbrev pub set_tuple_offset_at_slot : List ℕ → ℕ → ℕ → Result (List ℕ)
set_tuple_offset_at_slot p slot_num offset = store_u32 p (24 + 8 * slot_num) offset

abbrev pub get_tuple_size : List ℕ → ℕ → Result ℕ
get_tuple_size p slot_num = load_u32 p (28 + 8 * slot_num)

abbrev pub set_tuple_size : List ℕ → ℕ → ℕ → Result (List ℕ)
set_tuple_size p slot_num size = store_u32 p (28 + 8 * slot_num) size

-- GetFreeSpaceRemaining: a difference of size_t, cut to uint32_t.
unfoldable pub get_free_space_remaining : List ℕ → Result ℕ
get_free_space_remaining p = do
  free_space_pointer ← get_free_space_pointer p
  tuple_count ← get_tuple_count p
  ok ((free_space_pointer + 2 ^ 64 - 24 - 8 * tuple_count) % 2 ^ 32)

-- `tuple_size & DELETE_MASK`, the highest of the 32 bits
abbrev pub delete_bit : ℕ → ℕ
delete_bit tuple_size = tuple_size / 2 ^ 31 % 2

abbrev pub is_deleted : ℕ → Bool
is_deleted tuple_size = not (delete_bit tuple_size == 0) || tuple_size == 0

abbrev pub set_deleted_flag : ℕ → ℕ
set_deleted_flag tuple_size = tuple_size + (1 - delete_bit tuple_size) * 2 ^ 31

abbrev pub unset_deleted_flag : ℕ → ℕ
unset_deleted_flag tuple_size = tuple_size - delete_bit tuple_size * 2 ^ 31
