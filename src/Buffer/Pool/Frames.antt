-- ===== src/Buffer/Pool/Frames.antt =====
-- The frame that FetchPage and NewPage take (buffer/buffer_pool_manager.cpp).
use wslproject.Base.{
  ℕ, ◌<◌, ◌≡◌, ◌≢◌, refl, sym, ap, List, [], ◌∷◌, ◌++◌, Option, none, some, true, false, ◌==◌,
  ==_ne, ==_refl, if◌then◌else◌, ◌⊎◌, inl, inr, arith,
}
use mathlib.Core.Path.{subst}
use wslproject.Base.Assoc.{lookup}
use wslproject.Storage.Disk.{map_page_id}
use wslproject.Buffer.Lru.{LruReplacer, victim, victim_of}
use wslproject.Buffer.Lru.Order
use wslproject.Buffer.Lru.Order.{
  frames, frames_of, has, remove, Distinct, absent, has-node_of-none, empty_replacer-IsValid,
}
use wslproject.Buffer.Lru.Queue.{victim_lem}
use wslproject.Buffer.Pool.{BufferPool, invalid_page_id, take_frame, take_from}
use wslproject.Buffer.Pool.Valid.{IsValid, NoDup}

pub has-remove : (f g : ℕ) (q : List ℕ) → has g (remove f q) ≡ (if f == g then false else has g q)
unfolding has remove
has-remove f g [] = ground arith
has-remove f g (h ∷ q) = ground (arith, has-remove f g q)

pub has-append : (f g : ℕ) (q : List ℕ) → has g (q ++ (f ∷ [])) ≡ (if f == g then true else has g q)
unfolding has
has-append f g [] = refl
has-append f g (h ∷ q) = ground (arith, has-append f g q)

-- A queue without repetition, after its first frame.
front_of :
    (r : LruReplacer)
    → Order.IsValid r
    → ((victim r ≡ (r, none)) × (frames r ≡ []))
      ⊎ ((f : ℕ) × ((victim r).1 ≡ some f)
          × (has f (frames r) ≡ true)
          × (has f (frames (victim r).0) ≡ false)
          × ((g : ℕ) → g ≢ f → has g (frames (victim r).0) ≡ has g (frames r)))
unfolding victim victim_of has Distinct
front_of r v = go r.lru_list refl v.distinct
  where
    go :
        (l : List (ℕ × ℕ))
        → r.lru_list ≡ l
        → Distinct l
        → ((victim_of r l ≡ (r, none)) × (frames r ≡ []))
          ⊎ ((f : ℕ) × ((victim_of r l).1 ≡ some f)
              × (has f (frames r) ≡ true)
              × (has f (frames (victim_of r l).0) ≡ false)
              × ((g : ℕ) → g ≢ f → has g (frames (victim_of r l).0) ≡ has g (frames r)))
    go [] e d = inl (refl, ap frames_of e)
    go ((n, f) ∷ rest) e d = inr (
      f,
      refl,
      rw (ap frames_of e) (rw (==_refl f) refl),
      has-node_of-none f rest (absent n f rest d.0),
      λ g ne. rw (ap frames_of e) (rw (==_ne f g (λ q. ne (sym q))) refl),
    )

-- What is known of a frame `f` that is taken, with the free list and the replacer after it.
pub record Spare (p : BufferPool) (f : ℕ) (fl : List ℕ) (r : LruReplacer) : Type 0 where
  pub within : f < p.pool_size
  pub unpinned : (p.pages f).pin_count ≡ 0
  pub origin :
      ((lookup (p.pages f).page_id p.page_table ≡ some f)
        × ((p.pages f).is_dirty ≡ false
            → (p.pages f).page_data ≡ p.disk.file (map_page_id (p.pages f).page_id)))
      ⊎ (((p.pages f).page_id ≡ invalid_page_id) × ((p.pages f).is_dirty ≡ false))
  pub distinct : NoDup fl
  pub queue : Order.IsValid r
  pub not_free : has f fl ≡ false
  pub not_queued : has f (frames r) ≡ false
  pub others_free : (g : ℕ) → g ≢ f → has g fl ≡ has g p.free_list
  pub others_queued : (g : ℕ) → g ≢ f → has g (frames r) ≡ has g (frames p.replacer)

abbrev Taken : BufferPool → BufferPool × Option ℕ → Type 0
Taken p result =
    ((result ≡ (p, none)) × ((f : ℕ) → f < p.pool_size → 0 < (p.pages f).pin_count))
    ⊎ ((f : ℕ) × (fl : List ℕ) × (r : LruReplacer) × (result
          ≡ (record p { free_list = fl; replacer = r }, some f))
        × Spare p f fl r)

nothing_in : (q : List ℕ) (f : ℕ) → q ≡ [] → has f q ≡ true → ⊥
unfolding has
nothing_in [] f e h = ground arith
nothing_in (x ∷ q) f e h = ground arith

-- The free list is empty: the frame is the replacer's, if it has one.
take_victim : (p : BufferPool) → IsValid p → p.free_list ≡ [] → Taken p (take_from p [])
unfolding take_from has NoDup
take_victim p v e = elim (front_of p.replacer v.replacer_valid) [
  | inl (none_left, empty) ↦ inl (
    rw none_left refl,
    λ f hf. elim (v.covered f hf) [
      | inl free ↦ absurd (nothing_in p.free_list f e free)
      | inr (inl queued) ↦ absurd (nothing_in (frames p.replacer) f empty queued)
      | inr (inr pinned) ↦ pinned
    ],
  )
  | inr (f, got, queued, gone, others) ↦
      let here = v.evictable f queued in
      inr (
        f,
        [],
        (victim p.replacer).0,
        rw got (
            ap
              (λ (l : List ℕ).
                (record p { replacer = (victim p.replacer).0; free_list = l }, some f))
              e),
        record {
          within = here.0;
          unpinned = here.1;
          origin = inl (here.2, here.3);
          distinct = tt;
          queue = (victim_lem p.replacer v.replacer_valid).2;
          not_free = refl;
          not_queued = gone;
          others_free = λ g ne. rw e refl;
          others_queued = others;
        },
      )
]

take_first :
    (p : BufferPool) (f : ℕ) (rest : List ℕ)
    → IsValid p
    → p.free_list ≡ f ∷ rest
    → Taken p (take_from p (f ∷ rest))
unfolding take_from has NoDup
take_first p f rest v e =
    let listed : has f p.free_list ≡ true = rw (e, ==_refl f) refl in
    let here = v.free f listed in
    let distinct : NoDup (f ∷ rest) = subst NoDup e v.free_distinct in
    inr (
      f,
      rest,
      p.replacer,
      refl,
      record {
        within = here.0;
        unpinned = here.1;
        origin = inr (here.2, here.3);
        distinct = distinct.1;
        queue = v.replacer_valid;
        not_free = distinct.0;
        not_queued = here.4;
        others_free = λ g ne. rw (e, ==_ne f g (λ q. ne (sym q))) refl;
        others_queued = λ g ne. refl;
      },
    )

-- The frame is spare, or there is none and every page is pinned.
pub take_frame_lem :
    (p : BufferPool)
    → IsValid p
    → ((take_frame p ≡ (p, none)) × ((f : ℕ) → f < p.pool_size → 0 < (p.pages f).pin_count))
      ⊎ ((f : ℕ) × (fl : List ℕ) × (r : LruReplacer) × (take_frame p
            ≡ (record p { free_list = fl; replacer = r }, some f))
          × Spare p f fl r)
unfolding take_frame
take_frame_lem p v = elim (list-cases p.free_list) [
  | inl empty ↦ subst (λ (l : List ℕ). Taken p (take_from p l)) (sym empty) (take_victim p v empty)
  | inr (f, rest, e) ↦
      subst (λ (l : List ℕ). Taken p (take_from p l)) (sym e) (take_first p f rest v e)
]
  where
    list-cases : (l : List ℕ) → (l ≡ []) ⊎ ((f : ℕ) × (rest : List ℕ) × (l ≡ f ∷ rest))
    list-cases [] = inl refl
    list-cases (f ∷ rest) = inr (f, rest, refl)
