-- ===== src/Storage/Disk/Allocation.antt =====
-- Allocation of pages of the file (storage/disk_manager.cpp).
use wslproject.Base.{
  ℕ, zero, ◌+◌, ◌*◌, ◌/◌, ◌%◌, ◌^◌, ◌≤◌, ◌<◌, ◌≡◌, ◌≢◌, refl, ap, ◌∙◌, true, false, none, some,
  Result, ok, get_or, set, arith, inl, inr,
}
use wslproject.Pages.Bitmap.{BitmapPage, is_page_free}
use wslproject.Pages.Bitmap
use wslproject.Pages.Bitmap.Laws
use wslproject.Pages.Bitmap.Laws.{FlipsTo}
use wslproject.Pages.Bitmap.Memory.{zero_bitmap, read_bitmap-write_bitmap}
use wslproject.Storage.Disk.{
  DiskManager, DiskFileMetaPage, bitmap_size, is_page_free_at, find_extent, increment_used,
  allocate_in, allocate_new, allocate_page,
}
use wslproject.Storage.Disk.Extents.{
  Whole, Holds, IsValid, max_extents, zero-Holds, is_page_free_at-Holds, read_physical_page-Holds,
}
use wslproject.Storage.Disk.Invariant.{
  data_pages, is_page_free_at_step, IsValid-step, find_extent_lem,
}
use wslproject.Storage.Disk.Changes.{Marks, rewritten, Whole-rewritten, increment_used-eq}

module _ (d : DiskManager) (v : IsValid d) (e : ℕ) (he : e < max_extents) (b : BitmapPage)
    (h : Holds d e b) (count : get_or d.meta_data.extent_used_page e 0 ≡ b.page_allocated) where
  -- What the two branches of AllocatePage share, for the result of the bitmap.
  module _ (b' : BitmapPage) (i : ℕ) (step : Bitmap.allocate_page b ≡ (b', i, true))
      (hi : i < bitmap_size) (free : is_page_free b i ≡ true) (flips : FlipsTo false b i b')
      (grown : b'.page_allocated ≡ b.page_allocated + 1) (v' : Laws.IsValid b')
      (small : b'.page_allocated < 2 ^ 32) where
    abbrev grown_meta : ℕ → DiskFileMetaPage
    grown_meta num = record {
      num_allocated_pages = (d.meta_data.num_allocated_pages + 1) % 2 ^ 32;
      num_extents = num;
      extent_used_page = set d.meta_data.extent_used_page e b'.page_allocated;
    }

    used_after :
        increment_used d.meta_data.extent_used_page e
        ≡ ok (set d.meta_data.extent_used_page e b'.page_allocated)
    used_after =
        increment_used-eq d.meta_data.extent_used_page e _ _ (omega (arith, v.room)) count grown
          small

    was_free : is_page_free_at d (i + bitmap_size * e) ≡ ok true
    was_free =
        rw
          (
            is_page_free_at-Holds d (i + bitmap_size * e) b (rw extent_index h) (omega arith),
            offset,
            free,
          )
          refl
      where
        extent_index : (i + bitmap_size * e) / bitmap_size ≡ e
        extent_index = omega arith

        offset : (i + bitmap_size * e) % bitmap_size ≡ i
        offset = omega arith

    marks :
        (num : ℕ)
        → e < num
        → num ≤ max_extents
        → d.meta_data.num_extents ≤ num
        → ((f : ℕ) → f < num → f ≢ e → f < d.meta_data.num_extents)
        → Marks false d (i + bitmap_size * e) (rewritten d e b' (grown_meta num))
    marks num live few more others = (
      is_page_free_at_step d after e b b' he (λ p. refl) v' (flips.0 ∙ h.sized) whole false i v h
          flips hi,
      data_pages d after e b b' he (λ p. refl) v' (flips.0 ∙ h.sized) whole,
      IsValid-step d after e b b' he (λ p. refl) v' (flips.0 ∙ h.sized) whole v live few more others
          refl,
    )
      where
        after : DiskManager
        after = rewritten d e b' (grown_meta num)

        whole : Whole after
        whole = Whole-rewritten d e b' (grown_meta num) v.whole he

    allocate_in-eq :
        allocate_in d e
        ≡ ok (rewritten d e b' (grown_meta d.meta_data.num_extents), i + bitmap_size * e)
    unfolding allocate_in
    allocate_in-eq =
        rw
          (
            read_physical_page-Holds d e b h he,
            read_bitmap-write_bitmap b h.valid,
            used_after,
            step,
          )
          (ap (λ (t : ℕ). ok (rewritten d e b' (grown_meta d.meta_data.num_extents), t)) id)
      where
        id : (i + bitmap_size * e) % 2 ^ 32 ≡ i + bitmap_size * e
        id = omega arith

-- The bitmap of an extent that has room gives out a page.
give :
    (d : DiskManager) (e : ℕ) (b : BitmapPage)
    → Holds d e b
    → b.page_allocated < bitmap_size
    → (b' : BitmapPage) × (i : ℕ) × (Bitmap.allocate_page b ≡ (b', i, true))
      × (i < bitmap_size)
      × (is_page_free b i ≡ true)
      × FlipsTo false b i b'
      × (b'.page_allocated ≡ b.page_allocated + 1)
      × Laws.IsValid b'
give d e b h room = elim (Laws.allocate_page-FlipsTo b h.valid) [
  | inl full ↦ absurd (omega (arith, full.0, h.sized))
  | inr (b', i, step, _, within, free, flips, grown, v') ↦
      (b', i, step, omega (arith, within, h.sized), free, flips, grown, v')
]

allocate_new-eq :
    (d : DiskManager) (v : IsValid d) (b' : BitmapPage) (i : ℕ)
    → d.meta_data.num_extents < max_extents
    → Bitmap.allocate_page zero_bitmap ≡ (b', i, true)
    → i < bitmap_size
    → b'.page_allocated ≡ 1
    → allocate_new d d.meta_data.num_extents
      ≡ ok (
        rewritten d d.meta_data.num_extents b' (record {
          num_allocated_pages = (d.meta_data.num_allocated_pages + 1) % 2 ^ 32;
          num_extents = d.meta_data.num_extents + 1;
          extent_used_page =
              set d.meta_data.extent_used_page d.meta_data.num_extents b'.page_allocated;
        }),
        i + bitmap_size * d.meta_data.num_extents,
      )
unfolding allocate_new
allocate_new-eq d v b' i more step hi one =
    rw
      (
        increment_used-eq d.meta_data.extent_used_page d.meta_data.num_extents zero
            b'.page_allocated (omega (arith, v.room))
            ((v.blank d.meta_data.num_extents (omega arith) more).1) one (omega (arith, one)),
        step,
        next,
        id,
      )
      refl
  where
    next : (d.meta_data.num_extents + 1) % 2 ^ 32 ≡ d.meta_data.num_extents + 1
    next = omega arith

    id :
        (i + bitmap_size * d.meta_data.num_extents) % 2 ^ 32
        ≡ i + bitmap_size * d.meta_data.num_extents
    id = omega arith

-- A result that is a page taken from the file.
abbrev pub Takes : DiskManager → Result (DiskManager × ℕ) → Type 0
Takes d result =
    (d' : DiskManager) × (id : ℕ) × (result ≡ ok (d', id))
    × (id < max_extents * bitmap_size)
    × (is_page_free_at d id ≡ ok true)
    × Marks false d id d'

allocate_in_lem :
    (d : DiskManager) (v : IsValid d) (e : ℕ)
    → e < d.meta_data.num_extents
    → get_or d.meta_data.extent_used_page e 0 < bitmap_size
    → Takes d (allocate_in d e)
allocate_in_lem d v e live room =
    let he : e < max_extents = omega (arith, v.few) in
    let (b, h, count) = v.live e live in
    let (b', i, step, hi, free, flips, grown, v') = give d e b h (omega arith) in
    let small : b'.page_allocated < 2 ^ 32 = omega arith in
    (
      rewritten d e b' (
          grown_meta d v e he b h count b' i step hi free flips grown v' small
            d.meta_data.num_extents),
      i + bitmap_size * e,
      allocate_in-eq d v e he b h count b' i step hi free flips grown v' small,
      omega arith,
      was_free d v e he b h count b' i step hi free flips grown v' small,
      marks d v e he b h count b' i step hi free flips grown v' small d.meta_data.num_extents live
          v.few (omega arith) (λ f hf ne. hf),
    )

allocate_new_lem :
    (d : DiskManager) (v : IsValid d)
    → d.meta_data.num_extents < max_extents
    → Takes d (allocate_new d d.meta_data.num_extents)
allocate_new_lem d v more =
    let e : ℕ = d.meta_data.num_extents in
    let blank = v.blank e (omega arith) more in
    let h : Holds d e zero_bitmap = zero-Holds d e v.whole blank.0 in
    let (b', i, step, hi, free, flips, grown, v') = give d e zero_bitmap h (omega arith) in
    let small : b'.page_allocated < 2 ^ 32 = omega (arith, grown) in
    (
      rewritten d e b' (
          grown_meta d v e more zero_bitmap h blank.1 b' i step hi free flips grown v' small
            (e + 1)),
      i + bitmap_size * e,
      allocate_new-eq d v b' i more step hi grown,
      omega arith,
      was_free d v e more zero_bitmap h blank.1 b' i step hi free flips grown v' small,
      marks d v e more zero_bitmap h blank.1 b' i step hi free flips grown v' small (e + 1)
          (omega arith) (omega arith) (omega arith) (λ f hf ne. omega arith),
    )

allocate_page-found :
    (d : DiskManager) (e : ℕ)
    → find_extent 0 d.meta_data.num_extents d.meta_data ≡ some e
    → allocate_page d ≡ allocate_in d e
unfolding allocate_page
allocate_page-found d e h = ground arith

allocate_page-not_found :
    (d : DiskManager)
    → find_extent 0 d.meta_data.num_extents d.meta_data ≡ none
    → allocate_page d ≡ allocate_new d d.meta_data.num_extents
unfolding allocate_page
allocate_page-not_found d h = ground arith

-- AllocatePage on a valid manager that may still open an extent: it returns the id of a page that was
-- free, which is then allocated; no other page changes its state, no data page its content, and the
-- manager is valid again.
pub allocate_page-Marks :
    (d : DiskManager)
    → IsValid d
    → d.meta_data.num_extents < max_extents
    → Takes d (allocate_page d)
allocate_page-Marks d v more =
    elim (find_extent_lem 0 d.meta_data.num_extents d.meta_data (omega arith)) [
      | inl (e, found, within, room) ↦
          rw (allocate_page-found d e found) (allocate_in_lem d v e (omega arith) room)
      | inr (none_yet, full) ↦ rw (allocate_page-not_found d none_yet) (allocate_new_lem d v more)
    ]
