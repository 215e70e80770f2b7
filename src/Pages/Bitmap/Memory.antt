-- ===== src/Pages/Bitmap/Memory.antt =====
-- The bitmap page as it lies in memory (include/page/bitmap_page.h): two counters of four bytes and
-- the bits, as `reinterpret_cast<BitmapPage<PAGE_SIZE> *>` reads and writes a buffer of PAGE_SIZE bytes.
use wslproject.Base.{ℕ, ◌≡◌, refl, List, ◌++◌, Result, ok, ◌>>=◌, replicate}
use wslproject.Base.Bytes.{write_u32, read_u32, read_u32-write_u32}
use wslproject.Pages.Bitmap.{BitmapPage}
use wslproject.Pages.Bitmap.Laws.{IsValid, IsValid-u32}

unfoldable pub write_bitmap : BitmapPage → List ℕ
write_bitmap b = write_u32 b.page_allocated ++ (write_u32 b.next_free_page ++ b.bytes)

unfoldable pub read_bitmap : List ℕ → Result BitmapPage
read_bitmap buf = do
  (allocated, after_allocated) ← read_u32 buf
  (next, bits) ← read_u32 after_allocated
  ok (record { page_allocated = allocated; next_free_page = next; bytes = bits })

pub read_bitmap-write_bitmap : (b : BitmapPage) → IsValid b → read_bitmap (write_bitmap b) ≡ ok b
unfolding read_bitmap write_bitmap
read_bitmap-write_bitmap b v = rw (
  read_u32-write_u32 b.page_allocated _ (IsValid-u32 b v).0,
  read_u32-write_u32 b.next_free_page _ (IsValid-u32 b v).1,
)

-- The bitmap of a buffer of zeros of PAGE_SIZE bytes.
abbrev pub zero_bitmap : BitmapPage
zero_bitmap = record { page_allocated = 0; next_free_page = 0; bytes = replicate 4088 0 }

pub write_bitmap-zero : write_bitmap zero_bitmap ≡ replicate 4096 0
unfolding write_bitmap write_u32
write_bitmap-zero = refl
