-- ===== src/Buffer/Pool/Delete.antt =====
-- DeletePage and the constructor of buffer/buffer_pool_manager.cpp.
use wslproject.Base.{
  ℕ, zero, suc, ◌+◌, ◌*◌, ◌<◌, ◌≤◌, ◌≡◌, refl, ap, ◌∙◌, [], ◌∷◌, ◌++◌, none, some, Bool, true,
  false, Result, ok, ==_ne, ==_refl, ==_iff, ◌⊎◌, inl, inr, arith, Option-cases, Bool-cases,
}
use native.Mathlib.Decide.{ℕ_discrete}
use wslproject.Base.Assoc.{lookup, erase, lookup-erase}
use wslproject.Storage.Disk.{DiskManager, bitmap_size, is_page_free_at, map_page_id}
use wslproject.Storage.Disk.Extents
use wslproject.Storage.Disk.Extents.{max_extents}
use wslproject.Storage.Disk.Changes.{Marks}
use wslproject.Storage.Disk.Release.{deallocate_page-Marks}
use wslproject.Buffer.Lru.Order.{frames, has, empty_replacer-IsValid}
use wslproject.Buffer.Pool.{
  BufferPool, Page, invalid_page_id, set_page, count_up, new_pool, delete_found, delete_page,
}
use wslproject.Buffer.Pool.Valid.{IsValid, NoDup, view, view_of}
use wslproject.Buffer.Pool.Install.{set_page_self}
use wslproject.Buffer.Pool.Evict.{page_at-eq}
use wslproject.Buffer.Pool.Release.{queued}

-- The three answers of DeletePage, over a file in which the page is released.
abbrev pub Deleted : BufferPool → ℕ → DiskManager → Result (BufferPool × Bool) → Type 0
Deleted p id d result =
    ((lookup id p.page_table ≡ none) × (result ≡ ok (record p { disk = d }, true)))
    ⊎ ((f : ℕ) × (lookup id p.page_table ≡ some f)
        × (0 < (p.pages f).pin_count)
        × (result ≡ ok (record p { disk = d }, false)))
    ⊎ ((f : ℕ) × (p' : BufferPool) × (lookup id p.page_table ≡ some f)
        × ((p.pages f).pin_count ≡ 0)
        × (result ≡ ok (p', true))
        × (p'.disk ≡ d)
        × (lookup id p'.page_table ≡ none)
        × ((p'.pages f).page_id ≡ invalid_page_id)
        × (p'.free_list ≡ p.free_list ++ (f ∷ []))
        × (has f (frames p'.replacer) ≡ true))

delete_found_lem :
    (p : BufferPool) (id : ℕ) (d : DiskManager)
    → IsValid p
    → Deleted p id d (delete_found (record p { disk = d }) id (lookup id p.page_table))
unfolding delete_found
delete_found_lem p id d v = elim (Option-cases (lookup id p.page_table)) [
  | inl missing ↦ inl (missing, rw missing refl)
  | inr (f, at) ↦
      let read = page_at-eq (record p { disk = d }) f ((v.tabled id f at).0) in
      elim (ℕ_discrete (p.pages f).pin_count 0) [
        | no busy ↦ inr (
            inl
              (f, at, omega (arith, busy), rw (at, read, ==_ne (p.pages f).pin_count 0 busy) refl))
        | yes idle ↦
            let page : Page = record (p.pages f) {
              page_id = invalid_page_id;
              pin_count = 0;
              is_dirty = false;
            } in
            inr (
              inr (
                f,
                record p {
                  pages = set_page p.pages f page;
                  disk = d;
                  page_table = erase id p.page_table;
                  free_list = p.free_list ++ (f ∷ []);
                },
                at,
                idle,
                rw (at, read, (==_iff (p.pages f).pin_count 0).1 idle) refl,
                refl,
                lookup-erase id id p.page_table ∙ rw (==_refl id) refl,
                ap (λ (t : Page). t.page_id) (set_page_self p.pages f page),
                refl,
                queued p v id f at idle,
              ))
      ]
]

-- DeletePage of an allocated page releases the page in the file whatever it answers. A page that is not
-- in the pool is all right. A pinned one makes it answer false, and stays in the pool and in the table.
-- Otherwise the page leaves the table and its frame goes to the end of the free list; the frame also stays
-- in the replacer, so that it can be taken twice.
pub delete_page_lem :
    (p : BufferPool) (id : ℕ)
    → IsValid p
    → id < p.disk.meta_data.num_extents * bitmap_size
    → is_page_free_at p.disk id ≡ ok false
    → (d : DiskManager) × Marks true p.disk id d × Deleted p id d (delete_page p id)
unfolding delete_page
delete_page_lem p id v small taken = elim (deallocate_page-Marks p.disk id v.disk_valid small) [
  | inl (free, _) ↦ absurd (ground arith)
  | inr (d, _, released, marks) ↦ (d, marks, rw released (delete_found_lem p id d v))
]

has-count_up : (i k f : ℕ) → has f (count_up i k) ≡ true → (i ≤ f) × (f < i + k)
unfolding has count_up
has-count_up i zero f h = ground arith
has-count_up i (suc k) f h = elim (ℕ_discrete i f) [
  | yes e ↦ (omega arith, omega arith)
  | no ne ↦ let later = has-count_up (suc i) k f (ground arith) in (omega arith, omega arith)
]

count_up-has : (i k f : ℕ) → i ≤ f → f < i + k → has f (count_up i k) ≡ true
unfolding has count_up
count_up-has i zero f lo hi = absurd (omega arith)
count_up-has i (suc k) f lo hi = elim (ℕ_discrete i f) [
  | yes e ↦ ground arith
  | no ne ↦ ground (arith, count_up-has (suc i) k f (omega arith) (omega arith))
]

count_up-NoDup : (i k : ℕ) → NoDup (count_up i k)
unfolding NoDup count_up
count_up-NoDup i zero = tt
count_up-NoDup i (suc k) = (
  elim (Bool-cases (has i (count_up (suc i) k))) [
    | inl there ↦ absurd (omega (arith, (has-count_up (suc i) k i there).0))
    | inr out ↦ out
  ],
  count_up-NoDup (suc i) k,
)

-- A new pool over a valid file is valid, and shows what the file has.
pub new_pool-IsValid :
    (size : ℕ) (d : DiskManager)
    → Extents.IsValid d
    → IsValid (new_pool size d) × ((m : ℕ) → view (new_pool size d) m ≡ d.file (map_page_id m))
unfolding new_pool lookup has view_of
new_pool-IsValid size d v = (
  record {
    disk_valid = v;
    replacer_valid = empty_replacer-IsValid;
    free_distinct = count_up-NoDup 0 size;
    tabled = λ id f h. absurd (ground arith);
    evictable = λ f h. absurd (ground arith);
    free = λ f h. (ground (arith, has-count_up 0 size f h), refl, refl, refl, refl);
    covered = λ f h. inl (count_up-has 0 size f (omega arith) (omega arith));
  },
  λ m. refl,
)
