-- ===== src/Storage/Disk/Release.antt =====
-- Release of pages of the file (storage/disk_manager.cpp).
use wslproject.Base.{
  ℕ, ◌+◌, ◌-◌, ◌*◌, ◌/◌, ◌%◌, ◌^◌, ◌<◌, ◌≡◌, refl, ap, ◌∙◌, true, false, ok, ◌==◌, if◌then◌else◌,
  set, arith, ◌⊎◌, inl, inr,
}
use mathlib.Core.Path.{subst}
use wslproject.Pages.Bitmap.{BitmapPage, is_page_free}
use wslproject.Pages.Bitmap
use wslproject.Pages.Bitmap.Laws
use wslproject.Pages.Bitmap.Laws.{FlipsTo}
use wslproject.Pages.Bitmap.Memory.{read_bitmap-write_bitmap}
use wslproject.Storage.Disk.{
  DiskManager, DiskFileMetaPage, bitmap_size, is_page_free_at, release, deallocate_page,
}
use wslproject.Storage.Disk.Addresses.{extent_of-eq, offset_of-eq}
use wslproject.Storage.Disk.Extents.{
  IsValid, max_extents, is_page_free_at-Holds, read_physical_page-Holds,
}
use wslproject.Storage.Disk.Invariant.{data_pages, is_page_free_at_step, IsValid-step}
use wslproject.Storage.Disk.Changes.{Marks, rewritten, Whole-rewritten, decrement_used-eq}

-- DeAllocatePage of a page of an extent on a valid manager. A page that is free is left so, and nothing
-- changes. Otherwise the page becomes free; no other page changes its state, no data page its
-- content, and the manager is valid again.
pub deallocate_page-Marks :
    (d : DiskManager) (l : ℕ)
    → IsValid d
    → l < d.meta_data.num_extents * bitmap_size
    → ((is_page_free_at d l ≡ ok true) × (deallocate_page d l ≡ ok d))
      ⊎ ((d' : DiskManager) × (is_page_free_at d l ≡ ok false)
          × (deallocate_page d l ≡ ok d')
          × Marks true d l d')
unfolding deallocate_page release
deallocate_page-Marks d l v hl =
    let e : ℕ = l / bitmap_size in
    let i : ℕ = l % bitmap_size in
    let he : e < max_extents = omega (arith, v.few) in
    let hm : l < max_extents * bitmap_size = omega (arith, v.few) in
    let (b, h, count) = v.live e (omega arith) in
    let size : l % bitmap_size < Bitmap.max_supported_size b = omega (arith, h.sized) in
    let state = is_page_free_at-Holds d l b h hm in
    let whole : l % bitmap_size + bitmap_size * (l / bitmap_size) ≡ l = omega arith in
    let read = read_physical_page-Holds d e b h he in
    let parse = read_bitmap-write_bitmap b h.valid in
    elim (Laws.deallocate_page-FlipsTo b i h.valid size) [
      | inl (free, step) ↦ inl (
        state ∙ ap ok free,
        rw (extent_of-eq l (omega arith), offset_of-eq l (omega arith), read, parse, step) refl,
      )
      | inr (b', step, taken, flips, _, shrunk, v') ↦
          let meta : DiskFileMetaPage = record {
            num_allocated_pages = (d.meta_data.num_allocated_pages + 2 ^ 32 - 1) % 2 ^ 32;
            num_extents = d.meta_data.num_extents;
            extent_used_page = set d.meta_data.extent_used_page e b'.page_allocated;
          } in
          let d' : DiskManager = rewritten d e b' meta in
          let short = Whole-rewritten d e b' meta v.whole he in
          let used =
            decrement_used-eq d.meta_data.extent_used_page e _ b'.page_allocated
              (omega (arith, v.room, v.few)) count shrunk (Laws.IsValid-u32 b h.valid).0 in
          inr (
            d',
            state ∙ ap ok taken,
            rw (extent_of-eq l (omega arith), offset_of-eq l (omega arith), read, parse, step, used)
                refl,
            (
              (λ m small.
                  subst
                    (λ (t : ℕ).
                      is_page_free_at d' m ≡ (if t == m then ok true else is_page_free_at d m))
                    whole
                    (is_page_free_at_step d d' e b b' he (λ p. refl) v' (flips.0 ∙ h.sized) short
                      true i v h flips (omega arith) m small)),
              data_pages d d' e b b' he (λ p. refl) v' (flips.0 ∙ h.sized) short,
              IsValid-step d d' e b b' he (λ p. refl) v' (flips.0 ∙ h.sized) short v (omega arith)
                  v.few (omega arith) (λ f hf ne. hf) refl,
            ),
          )
    ]
