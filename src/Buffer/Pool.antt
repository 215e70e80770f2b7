-- ===== src/Buffer/Pool.antt =====
-- buffer/buffer_pool_manager.cpp, include/buffer/buffer_pool_manager.h and include/page/page.h: the
-- pages of the file that are held in memory. A frame is the index of a page of the pool, and stands
-- for the pointer that the source returns; `none` is the null pointer. The latches and the log are
-- not modelled, and a pin count is taken not to reach 2 ^ 31.
pub mod Valid
pub mod Install
pub mod Touch
pub mod Evict
pub mod Fetch
pub mod Release
pub mod Close
pub mod Create
pub mod Delete
pub mod Frames
use wslproject.Base.{
  ℕ, zero, suc, ◌+◌, ◌-◌, ◌*◌, ◌^◌, List, [], ◌∷◌, ◌++◌, Option, none, some, Bool, true, false, not,
  ◌&&◌, ◌==◌, ltb, if◌then◌else◌, Result, ok, err, out_of_bounds, ◌>>=◌, replicate,
}
use wslproject.Base.Assoc.{lookup, insert, erase}
use wslproject.Storage.Disk
use wslproject.Storage.Disk.{DiskManager, read_page, write_page, is_page_free_at}
use wslproject.Buffer.Lru.{LruReplacer, empty_replacer, victim, pin, unpin}

pub record Page : Type 0 where
  pub page_data : List ℕ
  pub page_id : ℕ
  pub pin_count : ℕ
  pub is_dirty : Bool

abbrev pub invalid_page_id : ℕ
invalid_page_id = 2 ^ 32 - 1

-- EMPTY_PAGE_DATA, and what ResetMemory leaves
abbrev pub empty_page_data : List ℕ
empty_page_data = replicate 4096 0

pub record BufferPool : Type 0 where
  pub pool_size : ℕ
  pub pages : ℕ → Page
  pub disk : DiskManager
  pub page_table : List (ℕ × ℕ)
  pub replacer : LruReplacer
  pub free_list : List ℕ

unfoldable pub count_up : ℕ → ℕ → List ℕ
count_up i zero = []
count_up i (suc k) = i ∷ count_up (suc i) k

-- The constructor
unfoldable pub new_pool : ℕ → DiskManager → BufferPool
new_pool size d = record {
  pool_size = size;
  pages = λ _. record {
    page_data = empty_page_data;
    page_id = invalid_page_id;
    pin_count = 0;
    is_dirty = false;
  };
  disk = d;
  page_table = [];
  replacer = empty_replacer;
  free_list = count_up 0 size;
}

-- `pages_ + frame_id`
unfoldable pub page_at : BufferPool → ℕ → Result Page
page_at p frame_id = if ltb frame_id p.pool_size then ok (p.pages frame_id) else err out_of_bounds

unfoldable pub set_page : (ℕ → Page) → ℕ → Page → ℕ → Page
set_page pages frame_id page f = if f == frame_id then page else pages f

-- The frame of FetchPage and NewPage: the first of the free list, or else the victim.
unfoldable pub take_from : BufferPool → List ℕ → BufferPool × Option ℕ
take_from p (frame_id ∷ rest) = (record p { free_list = rest }, some frame_id)
take_from p [] = (record p { replacer = (victim p.replacer).0 }, (victim p.replacer).1)

unfoldable pub take_frame : BufferPool → BufferPool × Option ℕ
take_frame p = take_from p p.free_list

-- FetchPage of a page that is not in the pool, from the choice of the frame on.
unfoldable pub write_back : DiskManager → Page → List ℕ → Result DiskManager
write_back d page page_data = if page.is_dirty then write_page d page.page_id page_data else ok d

unfoldable pub load_page : ℕ → BufferPool × Option ℕ → Result (BufferPool × Option ℕ)
unfolding page_at write_back
load_page page_id (p, none) = ok (p, none)
load_page page_id (p, some frame_id) = do
  page ← page_at p frame_id
  disk ← write_back p.disk page page.page_data
  page_data ← read_page disk page_id
  let fetched : Page = record {
    page_data = page_data;
    page_id = page_id;
    pin_count = page.pin_count + 1;
    is_dirty = false;
  }
  let after : BufferPool = record p {
    pages = set_page p.pages frame_id fetched;
    disk = disk;
    page_table = insert page_id frame_id (erase page.page_id p.page_table);
    replacer = pin p.replacer frame_id;
  }
  ok (after, some frame_id)

unfoldable pub fetch_found : BufferPool → ℕ → Option ℕ → Result (BufferPool × Option ℕ)
unfolding page_at
fetch_found p page_id none = load_page page_id (take_frame p)
fetch_found p page_id (some frame_id) = do
  page ← page_at p frame_id
  let after : BufferPool = record p {
    pages = set_page p.pages frame_id (record page { pin_count = page.pin_count + 1 });
    replacer = pin p.replacer frame_id;
  }
  ok (after, some frame_id)

-- FetchPage
unfoldable pub fetch_page : BufferPool → ℕ → Result (BufferPool × Option ℕ)
fetch_page p page_id = fetch_found p page_id (lookup page_id p.page_table)

-- The loop of NewPage over the pages, with `k` rounds left at page `i`: is one of them not pinned?
unfoldable pub any_unpinned : (ℕ → Page) → ℕ → ℕ → Bool
any_unpinned pages i zero = false
any_unpinned pages i (suc k) =
    let rest = any_unpinned pages (suc i) k in if (pages i).pin_count == 0 then true else rest

-- NewPage, from the choice of the frame on: the frame and the id of the page.
unfoldable pub install_page : BufferPool × Option ℕ → Result (BufferPool × Option (ℕ × ℕ))
unfolding page_at write_back
install_page (p, none) = ok (p, none)
install_page (p, some frame_id) = do
  (disk, page_id) ← Disk.allocate_page p.disk
  page ← page_at p frame_id
  disk_after ← write_back disk page empty_page_data
  let fresh : Page = record {
    page_data = empty_page_data;
    page_id = page_id;
    pin_count = page.pin_count + 1;
    is_dirty = false;
  }
  let after : BufferPool = record p {
    pages = set_page p.pages frame_id fresh;
    disk = disk_after;
    page_table = insert page_id frame_id (erase page.page_id p.page_table);
  }
  ok (after, some (frame_id, page_id))

-- NewPage
unfoldable pub new_page : BufferPool → Result (BufferPool × Option (ℕ × ℕ))
new_page p =
    if any_unpinned p.pages 0 p.pool_size then install_page (take_frame p) else ok (p, none)

-- DeletePage
unfoldable pub delete_found : BufferPool → ℕ → Option ℕ → Result (BufferPool × Bool)
unfolding page_at
delete_found p page_id none = ok (p, true)
delete_found p page_id (some frame_id) = do
  page ← page_at p frame_id
  if not (page.pin_count == 0)
      then ok (p, false)
      else ok (
        record p {
          pages =
              set_page p.pages frame_id
                (record page { page_id = invalid_page_id; pin_count = 0; is_dirty = false });
          page_table = erase page_id p.page_table;
          free_list = p.free_list ++ (frame_id ∷ []);
        },
        true,
      )

unfoldable pub delete_page : BufferPool → ℕ → Result (BufferPool × Bool)
delete_page p page_id = do
  disk ← Disk.deallocate_page p.disk page_id
  delete_found (record p { disk = disk }) page_id (lookup page_id p.page_table)

-- UnpinPage
unfoldable pub unpin_found : BufferPool → Bool → Option ℕ → Result (BufferPool × Bool)
unfolding page_at
unpin_found p is_dirty none = ok (p, true)
unpin_found p is_dirty (some frame_id) = do
  page ← page_at p frame_id
  let dirty : Bool = if page.is_dirty then true else is_dirty
  let marked : Page = record page { is_dirty = dirty }
  let released : Page = record page { is_dirty = dirty; pin_count = page.pin_count - 1 }
  if page.pin_count == 0
      then ok (record p { pages = set_page p.pages frame_id marked }, false)
      else if page.pin_count == 1
      then ok (
        record p {
          pages = set_page p.pages frame_id released;
          replacer = unpin p.replacer frame_id;
        },
        true,
      )
      else ok (record p { pages = set_page p.pages frame_id released }, true)

unfoldable pub unpin_page : BufferPool → ℕ → Bool → Result (BufferPool × Bool)
unpin_page p page_id is_dirty = unpin_found p is_dirty (lookup page_id p.page_table)

-- FlushPage
unfoldable pub flush_found : BufferPool → ℕ → Option ℕ → Result (BufferPool × Bool)
unfolding page_at
flush_found p page_id none = ok (p, false)
flush_found p page_id (some frame_id) = do
  page ← page_at p frame_id
  disk ← write_page p.disk page_id page.page_data
  ok (
    record p { pages = set_page p.pages frame_id (record page { is_dirty = false }); disk = disk },
    true,
  )

unfoldable pub flush_page : BufferPool → ℕ → Result (BufferPool × Bool)
flush_page p page_id = flush_found p page_id (lookup page_id p.page_table)

-- The destructor: the pages of the table, in the order the table is walked.
unfoldable pub flush_all : BufferPool → List (ℕ × ℕ) → Result BufferPool
flush_all p [] = ok p
flush_all p ((page_id, frame_id) ∷ rest) = do
  (after, flushed) ← flush_page p page_id
  flush_all after rest

-- IsPageFree
unfoldable pub is_page_free : BufferPool → ℕ → Result Bool
is_page_free p page_id = is_page_free_at p.disk page_id

-- CheckAllUnpinned, without its messages
unfoldable pub all_unpinned : (ℕ → Page) → ℕ → ℕ → Bool
all_unpinned pages i zero = true
all_unpinned pages i (suc k) =
    let rest = all_unpinned pages (suc i) k in
    if not ((pages i).pin_count == 0) then false else rest

unfoldable pub check_all_unpinned : BufferPool → Bool
check_all_unpinned p = all_unpinned p.pages 0 p.pool_size
