-- ===== src/Storage/Disk.antt =====
-- storage/disk_manager.cpp, include/storage/disk_manager.h and include/page/disk_file_meta_page.h:
-- the pages of the database file, and which of them are allocated.
-- `file` gives the bytes of each physical page; a page at which the file ends, or which was never
-- written, reads as zeros; `file_size` is its length in bytes. Page ids are patterns of 32 bits. Errors
-- of the file system, the latch and the opening and closing of the file are not modelled.
pub mod Addresses
pub mod Allocation
pub mod Changes
pub mod Contents
pub mod Extents
pub mod Invariant
pub mod Release
use wslproject.Base.{
  ℕ, zero, suc, ◌+◌, ◌-◌, ◌*◌, ◌/◌, ◌%◌, ◌^◌, ◌<◌, Bool, true, false, not, List, [], ◌∷◌, Option,
  none, some, Result, ok, err, out_of_range, out_of_bounds, ◌>>=◌, ◌>>◌, assert, ◌==◌, ltb, leb,
  ◌||◌, if◌then◌else◌, length, get_or, set, replicate,
}
use wslproject.Pages.Bitmap
use wslproject.Pages.Bitmap.{is_page_free}
use wslproject.Pages.Bitmap.Memory.{read_bitmap, write_bitmap, zero_bitmap}

-- `extent_used_page` is the array up to the end of the meta page: 1022 counters.
pub record DiskFileMetaPage : Type 0 where
  pub num_allocated_pages : ℕ
  pub num_extents : ℕ
  pub extent_used_page : List ℕ

-- GetExtentUsedPage
unfoldable pub get_extent_used_page : DiskFileMetaPage → ℕ → ℕ
get_extent_used_page meta extent_id =
    if ltb extent_id meta.num_extents then get_or meta.extent_used_page extent_id 0 else 0

pub record DiskManager : Type 0 where
  pub file : ℕ → List ℕ
  pub file_size : ℕ
  pub meta_data : DiskFileMetaPage

abbrev pub page_size : ℕ
page_size = 4096

-- BitmapPage<PAGE_SIZE>::GetMaxSupportedSize(), the variable `pageSize` of the source
abbrev pub bitmap_size : ℕ
bitmap_size = 8 * (4096 - 8)

abbrev pub zero_page : List ℕ
zero_page = replicate 4096 0

-- DiskManager(db_file) for a file that it makes: every page reads as zeros, the meta page too.
abbrev pub new_disk : DiskManager
new_disk = record {
  file = λ p. zero_page;
  file_size = 0;
  meta_data = record {
    num_allocated_pages = 0;
    num_extents = 0;
    extent_used_page = replicate 1022 0;
  };
}

-- A page_id_t in arithmetic with size_t: a negative one wraps round.
abbrev pub to_size_t : ℕ → ℕ
to_size_t id = if ltb id (2 ^ 31) then id else id + 2 ^ 64 - 2 ^ 32

-- GetFileSize: the 32 bits of an int.
abbrev pub get_file_size : DiskManager → ℕ
get_file_size d = d.file_size % 2 ^ 32

-- `offset >= GetFileSize(file_name_)`, for an offset that is not negative: a size whose sign bit is set is
-- negative.
abbrev pub reads_past : ℕ → ℕ → Bool
reads_past offset size = leb (2 ^ 31) size || leb size offset

-- ReadPhysicalPage. The offset is an int: the multiplication overflows from 2 GB on.
unfoldable pub read_physical_page : DiskManager → ℕ → Result (List ℕ)
read_physical_page d id =
    if ltb (id * page_size) (2 ^ 31)
    then ok (if reads_past (id * page_size) (get_file_size d) then zero_page else d.file id)
    else err out_of_range

-- The length of the file after the page `id` is written.
abbrev pub size_after : ℕ → ℕ → ℕ
size_after size id = if ltb size (page_size * (id + 1)) then page_size * (id + 1) else size

-- WritePhysicalPage, whose offset is a size_t
unfoldable pub write_physical_page : DiskManager → ℕ → List ℕ → DiskManager
write_physical_page d id page_data = record d {
  file = λ p. if p == id then page_data else d.file p;
  file_size = size_after d.file_size id;
}

-- MapPageId
unfoldable pub map_page_id : ℕ → ℕ
map_page_id logical_page_id =
    let id = to_size_t logical_page_id in ((id / bitmap_size + id + 2) % 2 ^ 64) % 2 ^ 32

-- ReadPage
unfoldable pub read_page : DiskManager → ℕ → Result (List ℕ)
read_page d logical_page_id = do
  assert (ltb logical_page_id (2 ^ 31))
  read_physical_page d (map_page_id logical_page_id)

-- WritePage
unfoldable pub write_page : DiskManager → ℕ → List ℕ → Result DiskManager
unfolding write_physical_page
write_page d logical_page_id page_data = do
  assert (ltb logical_page_id (2 ^ 31))
  ok (write_physical_page d (map_page_id logical_page_id) page_data)

-- `(pageSize + 1) * extentIndex + 1`, as a page_id_t
unfoldable pub bitmap_address : ℕ → ℕ
bitmap_address extent_index = ((bitmap_size + 1) * extent_index + 1) % 2 ^ 32

-- The loop of AllocatePage over the extents, with `k` rounds left at extent `i`.
unfoldable pub find_extent : ℕ → ℕ → DiskFileMetaPage → Option ℕ
unfolding get_extent_used_page
find_extent i zero meta = none
find_extent i (suc k) meta =
    let rest = find_extent (suc i) k meta in
    if ltb (get_extent_used_page meta i) bitmap_size then some i else rest

-- `extent_used_page_[i]++` and `--`; the array ends with the page.
unfoldable pub increment_used : List ℕ → ℕ → Result (List ℕ)
increment_used used i =
    if ltb i (length used)
    then ok (set used i ((get_or used i 0 + 1) % 2 ^ 32))
    else err out_of_bounds

unfoldable pub decrement_used : List ℕ → ℕ → Result (List ℕ)
decrement_used used i =
    if ltb i (length used)
    then ok (set used i ((get_or used i 0 + 2 ^ 32 - 1) % 2 ^ 32))
    else err out_of_bounds

-- AllocatePage in an extent that has room, and in a new one.
unfoldable pub allocate_in : DiskManager → ℕ → Result (DiskManager × ℕ)
unfolding write_physical_page increment_used
allocate_in d extent_index = do
  buf ← read_physical_page d (bitmap_address extent_index)
  bitmap ← read_bitmap buf
  used ← increment_used d.meta_data.extent_used_page extent_index
  let step = Bitmap.allocate_page bitmap
  let meta : DiskFileMetaPage = record {
    num_allocated_pages = (d.meta_data.num_allocated_pages + 1) % 2 ^ 32;
    num_extents = d.meta_data.num_extents;
    extent_used_page = used;
  }
  ok (
    write_physical_page (record d { meta_data = meta }) (bitmap_address extent_index)
        (write_bitmap step.0),
    (step.1 + bitmap_size * extent_index) % 2 ^ 32,
  )

unfoldable pub allocate_new : DiskManager → ℕ → Result (DiskManager × ℕ)
unfolding write_physical_page increment_used
allocate_new d extent_index = do
  used ← increment_used d.meta_data.extent_used_page extent_index
  let step = Bitmap.allocate_page zero_bitmap
  let meta : DiskFileMetaPage = record {
    num_allocated_pages = (d.meta_data.num_allocated_pages + 1) % 2 ^ 32;
    num_extents = (d.meta_data.num_extents + 1) % 2 ^ 32;
    extent_used_page = used;
  }
  ok (
    write_physical_page (record d { meta_data = meta }) (bitmap_address extent_index)
        (write_bitmap step.0),
    (step.1 + bitmap_size * extent_index) % 2 ^ 32,
  )

-- AllocatePage: the logical id of the page.
unfoldable pub allocate_page : DiskManager → Result (DiskManager × ℕ)
allocate_page d = elim (find_extent 0 d.meta_data.num_extents d.meta_data) [
  | some extent_index ↦ allocate_in d extent_index
  | none ↦ allocate_new d d.meta_data.num_extents
]

-- `logical_page_id / pageSize` and `logical_page_id % pageSize`, as uint32_t
abbrev pub extent_of : ℕ → ℕ
extent_of logical_page_id = to_size_t logical_page_id / bitmap_size % 2 ^ 32

abbrev pub offset_of : ℕ → ℕ
offset_of logical_page_id = to_size_t logical_page_id % bitmap_size

-- The end of DeAllocatePage, which is reached only if the bitmap had the page.
unfoldable pub release : DiskManager → ℕ → Bitmap.BitmapPage × Bool → Result DiskManager
unfolding write_physical_page decrement_used
release d extent_index (bitmap, false) = ok d
release d extent_index (bitmap, true) = do
  used ← decrement_used d.meta_data.extent_used_page extent_index
  let meta : DiskFileMetaPage = record {
    num_allocated_pages = (d.meta_data.num_allocated_pages + 2 ^ 32 - 1) % 2 ^ 32;
    num_extents = d.meta_data.num_extents;
    extent_used_page = used;
  }
  ok (
      write_physical_page (record d { meta_data = meta }) (bitmap_address extent_index)
        (write_bitmap bitmap))

-- DeAllocatePage
unfoldable pub deallocate_page : DiskManager → ℕ → Result DiskManager
deallocate_page d logical_page_id = do
  buf ← read_physical_page d (bitmap_address (extent_of logical_page_id))
  bitmap ← read_bitmap buf
  release d (extent_of logical_page_id) (Bitmap.deallocate_page bitmap (offset_of logical_page_id))

-- IsPageFree
unfoldable pub is_page_free_at : DiskManager → ℕ → Result Bool
is_page_free_at d logical_page_id = do
  buf ← read_physical_page d (bitmap_address (extent_of logical_page_id))
  bitmap ← read_bitmap buf
  ok (is_page_free bitmap (offset_of logical_page_id))
