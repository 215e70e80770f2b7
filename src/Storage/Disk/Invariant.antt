-- ===== src/Storage/Disk/Invariant.antt =====
-- What one update of one bitmap does to the whole file (storage/disk_manager.cpp).
use wslproject.Base.{
  ℕ, zero, suc, ◌+◌, ◌*◌, ◌/◌, ◌%◌, ◌^◌, ◌≤◌, ◌<◌, ◌≡◌, ◌≢◌, refl, sym, ◌∙◌, Bool, true, none, some,
  ok, ◌==◌, ==_ne, ==_refl, ltb, if◌then◌else◌, length, length-set, get_or, set, get_or-set_self,
  get_or-set_ne, arith, ◌⊎◌, inl, inr, Bool-cases,
}
use native.Mathlib.Decide.{ℕ_discrete}
use wslproject.Pages.Bitmap.{BitmapPage, is_page_free}
use wslproject.Pages.Bitmap.Laws
use wslproject.Pages.Bitmap.Laws.{FlipsTo}
use wslproject.Pages.Bitmap.Memory.{write_bitmap}
use wslproject.Storage.Disk.{
  DiskManager, DiskFileMetaPage, bitmap_address, bitmap_size, is_page_free_at, find_extent,
  get_extent_used_page, map_page_id,
}
use wslproject.Storage.Disk.Addresses.{bitmap_address-eq, map_page_id-injective}
use wslproject.Storage.Disk.Extents.{
  Whole, Holds, IsValid, max_extents, extent, is_page_free_at-Holds,
}

bitmap_address-injective :
    (e f : ℕ) → e < max_extents → f < max_extents → bitmap_address f ≡ bitmap_address e → f ≡ e
bitmap_address-injective e f he hf p =
    omega (arith, bitmap_address-eq e (omega arith), bitmap_address-eq f (omega arith))

-- Two managers whose files differ in the bitmap of extent `e` only, which is `b'` in the second.
module _ (d d' : DiskManager) (e : ℕ) (b b' : BitmapPage) (he : e < max_extents)
    (written : (p : ℕ) → d'.file p ≡ (if p == bitmap_address e then write_bitmap b' else d.file p))
    (v' : Laws.IsValid b') (sized : length b'.bytes ≡ 4088) (whole : Whole d') where
  Holds-here : Holds d' e b'
  Holds-here = record {
    whole = whole;
    stored = rw (written (bitmap_address e), ==_refl (bitmap_address e)) refl;
    valid = v';
    sized = sized;
  }

  elsewhere :
      (f : ℕ) → f < max_extents → f ≢ e → d'.file (bitmap_address f) ≡ d.file (bitmap_address f)
  elsewhere f hf ne =
      rw
        (
          written (bitmap_address f),
          ==_ne (bitmap_address f) (bitmap_address e)
              (λ p. ne (bitmap_address-injective e f he hf p)),
        )
        refl

  Holds-elsewhere : (f : ℕ) (c : BitmapPage) → f < max_extents → f ≢ e → Holds d f c → Holds d' f c
  Holds-elsewhere f c hf ne h = record {
    whole = whole;
    stored = elsewhere f hf ne ∙ h.stored;
    valid = h.valid;
    sized = h.sized;
  }

  -- The data pages are as they were.
  pub data_pages : (l : ℕ) → l < 2 ^ 31 → d'.file (map_page_id l) ≡ d.file (map_page_id l)
  data_pages l hl =
      rw
        (
          written (map_page_id l),
          ==_ne (map_page_id l) (bitmap_address e)
              ((map_page_id-injective l l e hl hl (omega arith)).2),
        )
        refl

  -- One page of the extent changes its state, and no other page of the file.
  pub is_page_free_at_step :
      (free : Bool) (i : ℕ)
      → IsValid d
      → Holds d e b
      → FlipsTo free b i b'
      → i < bitmap_size
      → (m : ℕ) → m < max_extents * bitmap_size
      → is_page_free_at d' m ≡ (if i + bitmap_size * e == m then ok free else is_page_free_at d m)
  is_page_free_at_step free i v h flips hi m hm = elim (ℕ_discrete (m / bitmap_size) e) [
    | yes same ↦
        let here : Holds d' (m / bitmap_size) b' = rw same Holds-here in
        let before : Holds d (m / bitmap_size) b = rw same h in
        rw
          (
            is_page_free_at-Holds d' m b' here hm,
            is_page_free_at-Holds d m b before hm,
            flips.1 (m % bitmap_size),
          )
          (same_page same)
    | no differ ↦
        let (c, hc, _) = extent d (m / bitmap_size) v (omega arith) in
        let after = Holds-elsewhere (m / bitmap_size) c (omega arith) differ hc in
        rw
          (
            is_page_free_at-Holds d' m c after hm,
            is_page_free_at-Holds d m c hc hm,
            ==_ne (i + bitmap_size * e) m (λ p. differ (omega arith)),
          )
          refl
  ]
    where
      same_page :
          m / bitmap_size ≡ e
          → ok (if i == m % bitmap_size then free else is_page_free b (m % bitmap_size))
            ≡ (if i + bitmap_size * e == m then ok free else ok (is_page_free b (m % bitmap_size)))
      same_page same = elim (ℕ_discrete i (m % bitmap_size)) [
        | yes p ↦ rw (p, ==_refl (m % bitmap_size)) (rw (at_same p) refl)
        | no p ↦
            rw (==_ne i (m % bitmap_size) p, ==_ne (i + bitmap_size * e) m (λ q. p (omega arith)))
              refl
      ]
        where
          at_same : i ≡ m % bitmap_size → (m % bitmap_size + bitmap_size * e == m) ≡ true
          at_same p = ground arith

  -- The invariant is kept when the meta page counts what the bitmap counts.
  pub IsValid-step :
      IsValid d
      → e < d'.meta_data.num_extents
      → d'.meta_data.num_extents ≤ max_extents
      → d.meta_data.num_extents ≤ d'.meta_data.num_extents
      → ((f : ℕ) → f < d'.meta_data.num_extents → f ≢ e → f < d.meta_data.num_extents)
      → d'.meta_data.extent_used_page ≡ set d.meta_data.extent_used_page e b'.page_allocated
      → IsValid d'
  IsValid-step v live few grown others used = record {
    whole = whole;
    few = few;
    room = rw used (length-set d.meta_data.extent_used_page e b'.page_allocated ∙ v.room);
    live = λ f hf. elim (ℕ_discrete f e) [
      | yes p ↦ (
        b',
        rw p Holds-here,
        rw (p, used) (get_or-set_self d.meta_data.extent_used_page e _ 0 (omega (arith, v.room))),
      )
      | no p ↦
          let (c, hc, counted) = v.live f (others f hf p) in
          (c, Holds-elsewhere f c (omega arith) p hc, count_elsewhere f p ∙ counted)
    ];
    blank = λ f hf small.
        let none_yet = v.blank f (omega arith) small in
        let p : f ≢ e = (λ q. omega arith) in
        (elsewhere f small p ∙ none_yet.0, count_elsewhere f p ∙ none_yet.1);
  }
    where
      count_elsewhere :
          (f : ℕ)
          → f ≢ e
          → get_or d'.meta_data.extent_used_page f 0 ≡ get_or d.meta_data.extent_used_page f 0
      count_elsewhere f p =
          rw used (get_or-set_ne d.meta_data.extent_used_page e f _ 0 (λ q. p (sym q)))

-- The search for an extent with room takes the first one, or all of them are full.
pub find_extent_lem :
    (i k : ℕ) (meta : DiskFileMetaPage)
    → i + k ≤ meta.num_extents
    → ((e : ℕ) × (find_extent i k meta ≡ some e)
        × (e < i + k)
        × (get_or meta.extent_used_page e 0 < bitmap_size))
      ⊎ ((find_extent i k meta ≡ none)
          × ((e : ℕ) → i ≤ e → e < i + k → bitmap_size ≤ get_or meta.extent_used_page e 0))
unfolding find_extent get_extent_used_page
find_extent_lem i zero meta h = inr (refl, λ e a b. absurd (omega arith))
find_extent_lem i (suc k) meta h =
    elim (Bool-cases (ltb (get_or meta.extent_used_page i 0) bitmap_size)) [
      | inl room ↦ inl (i, ground arith, omega arith, ground arith)
      | inr full ↦ elim (find_extent_lem (suc i) k meta (omega arith)) [
        | inl (e, a, b, c) ↦ inl (e, ground arith, omega arith, c)
        | inr (a, all) ↦ inr (
          ground arith,
          λ e lo hi. elim (ℕ_discrete i e) [
            | yes p ↦ rw (sym p) (ground arith)
            | no p ↦ all e (omega arith) (omega arith)
          ],
        )
      ]
    ]
