-- ===== src/Tests/Pages.antt =====
-- A small bitmap and an index-roots page of four entries (page/bitmap_page.cpp, page/index_roots_page.cpp).
use wslproject.Base.{ℕ, ◌+◌, ◌<◌, ◌≡◌, refl, true, false, [], ◌∷◌, replicate, ◌⊎◌, arith}
use wslproject.Base.Assoc.{lookup}
use wslproject.Pages.Bitmap.{
  BitmapPage, max_supported_size, is_page_free, allocate_page, deallocate_page,
}
use wslproject.Pages.Bitmap.Bits.{count_bits}
use wslproject.Pages.Bitmap.Laws.{
  IsValid, FlipsTo, zero-IsValid, allocate_page-FlipsTo, deallocate_page-FlipsTo,
}
use wslproject.Pages.IndexRoots.{IndexRootsPage}
use wslproject.Pages.IndexRoots.View
use wslproject.Pages.IndexRoots.Calls.{Answers, call-Answers, update_call}

abbrev empty_bitmap : BitmapPage
empty_bitmap = record { page_allocated = 0; next_free_page = 0; bytes = replicate 2 0 }

abbrev one_page : BitmapPage
one_page = record { page_allocated = 1; next_free_page = 1; bytes = 1 ∷ 0 ∷ [] }

one_page-IsValid : IsValid one_page
unfolding count_bits
one_page-IsValid = record {
  bytes_valid = omega arith;
  fits_u32 = omega arith;
  counted = refl;
  within = omega arith;
  ready = λ _. refl;
}

allocate_page-FlipsTo_example :
    ((empty_bitmap.page_allocated ≡ max_supported_size empty_bitmap)
      × (allocate_page empty_bitmap ≡ (empty_bitmap, empty_bitmap.next_free_page, false)))
    ⊎ ((b' : BitmapPage) × (i : ℕ) × (allocate_page empty_bitmap ≡ (b', i, true))
        × (empty_bitmap.page_allocated < max_supported_size empty_bitmap)
        × (i < max_supported_size empty_bitmap)
        × (is_page_free empty_bitmap i ≡ true)
        × FlipsTo false empty_bitmap i b'
        × (b'.page_allocated ≡ empty_bitmap.page_allocated + 1)
        × IsValid b')
allocate_page-FlipsTo_example =
    allocate_page-FlipsTo empty_bitmap (zero-IsValid 2 (omega arith) (omega arith))

deallocate_page-FlipsTo_example :
    ((is_page_free one_page 0 ≡ true) × (deallocate_page one_page 0 ≡ (one_page, false)))
    ⊎ ((b' : BitmapPage) × (deallocate_page one_page 0 ≡ (b', true))
        × (is_page_free one_page 0 ≡ false)
        × FlipsTo true one_page 0 b'
        × (b'.next_free_page ≡ 0)
        × (b'.page_allocated + 1 ≡ one_page.page_allocated)
        × IsValid b')
deallocate_page-FlipsTo_example = deallocate_page-FlipsTo one_page 0 one_page-IsValid (omega arith)

abbrev two_indexes : IndexRootsPage
two_indexes = record { count = 2; roots = (7, 70) ∷ (8, 80) ∷ (0, 0) ∷ (0, 0) ∷ [] }

two_indexes-IsValid : View.IsValid two_indexes
unfolding lookup
two_indexes-IsValid = record { within = omega arith; distinct = (refl, (refl, tt)) }

call-Answers_example : Answers two_indexes (update_call 7 71)
call-Answers_example = call-Answers two_indexes (update_call 7 71) two_indexes-IsValid
