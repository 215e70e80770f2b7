-- ===== src/Tests/Buffer.antt =====
-- A pool of two frames over a file of one page (buffer/buffer_pool_manager.cpp).
use wslproject.Base.{
  ℕ, zero, ◌*◌, ◌<◌, ◌≡◌, refl, sym, ap, ◌∙◌, Bool, true, false, [], ◌∷◌, Option, none, some,
  replicate, Result, ok, err, if◌then◌else◌, ◌⊎◌, inl, inr, arith,
}
use mathlib.Core.Path.{subst}
use wslproject.Base.Assoc.{lookup, insert, erase}
use wslproject.Storage.Disk.{
  DiskManager, bitmap_size, map_page_id, read_page, read_physical_page, bitmap_address,
}
use wslproject.Storage.Disk.Extents.{max_extents}
use wslproject.Storage.Disk.Changes.{Marks}
use wslproject.Buffer.Lru.{empty_replacer, pin, pin_found}
use wslproject.Buffer.Lru.Queue.{
  victim_call, pin_call, unpin_call, size_call, run, run_queue, run-run_queue,
}
use wslproject.Buffer.Pool.{
  BufferPool, new_pool, count_up, page_at, set_page, take_from, take_frame, write_back, load_page,
  fetch_found, fetch_page, new_page, delete_page, unpin_page, flush_page, flush_all,
}
use wslproject.Buffer.Pool.Valid.{IsValid, InUse, view}
use wslproject.Buffer.Pool.Fetch.{Fetched, fetch_page_lem}
use wslproject.Buffer.Pool.Release.{Unpinned, Flushed, Kept, unpin_page_lem, flush_page_lem}
use wslproject.Buffer.Pool.Create.{Created, new_page_lem}
use wslproject.Buffer.Pool.Delete.{Deleted, delete_page_lem, new_pool-IsValid}
use wslproject.Buffer.Pool.Close.{flush_all_lem}
use wslproject.Tests.Storage.{one_disk, one_disk-IsValid, one_disk-in_use}

abbrev empty_pool : BufferPool
empty_pool = new_pool 2 one_disk

empty_pool-IsValid : IsValid empty_pool
empty_pool-IsValid = (new_pool-IsValid 2 one_disk one_disk-IsValid).0

page-InUse : InUse empty_pool.disk 0
unfolding new_pool
page-InUse = (omega arith, one_disk-in_use)

-- The pool with page 0 in frame 0, pinned once.
abbrev pub full_pool : BufferPool
full_pool = record {
  pool_size = 2;
  pages =
      set_page empty_pool.pages 0
        (record { page_data = replicate 4096 0; page_id = 0; pin_count = 1; is_dirty = false });
  disk = one_disk;
  page_table = (0, 0) ∷ [];
  replacer = empty_replacer;
  free_list = 1 ∷ [];
}

full_pool-eq : fetch_page empty_pool 0 ≡ ok (full_pool, some 0)
unfolding fetch_page fetch_found load_page take_frame take_from new_pool count_up lookup insert
    erase page_at write_back read_page map_page_id read_physical_page bitmap_address pin pin_found
full_pool-eq = refl

pool_or : BufferPool → Result (BufferPool × Option ℕ) → BufferPool
pool_or p (ok x) = x.0
pool_or p (err e) = p

pub full_pool-IsValid : IsValid full_pool
unfolding pool_or
full_pool-IsValid = elim (fetch_page_lem empty_pool 0 empty_pool-IsValid page-InUse) [
  | inl (null, _, _) ↦ absurd (clash (ap option_of (sym null ∙ full_pool-eq)))
  | inr (p, f, e, _, _, _, _, _, v) ↦
      subst IsValid (ap (pool_or empty_pool) (sym e ∙ full_pool-eq)) v
]
  where
    option_of : Result (BufferPool × Option ℕ) → Option ℕ
    option_of (ok x) = x.1
    option_of (err e) = none

    clash : none ≡ some zero → ⊥
    clash h = ground arith

fetch_page_lem_example :
    ((fetch_page empty_pool 0 ≡ ok (empty_pool, none))
      × (lookup 0 empty_pool.page_table ≡ none)
      × ((f : ℕ) → f < empty_pool.pool_size → 0 < (empty_pool.pages f).pin_count))
    ⊎ Fetched empty_pool 0 (fetch_page empty_pool 0)
fetch_page_lem_example = fetch_page_lem empty_pool 0 empty_pool-IsValid page-InUse

unpin_page_lem_example :
    ((lookup 0 full_pool.page_table ≡ none) × (unpin_page full_pool 0 true ≡ ok (full_pool, true)))
    ⊎ ((f : ℕ) × (lookup 0 full_pool.page_table ≡ some f)
        × Unpinned full_pool 0 f true (unpin_page full_pool 0 true))
unpin_page_lem_example = unpin_page_lem full_pool 0 true full_pool-IsValid kept
  where
    kept : (f : ℕ) → lookup 0 full_pool.page_table ≡ some f → Kept full_pool 0 f true
    kept f at h = absurd (never (full_pool.pages f).is_dirty h)
      where
        never : (b : Bool) → (if b then true else true) ≡ false → ⊥
        never true h = ground arith
        never false h = ground arith

flush_page_lem_example :
    ((lookup 0 full_pool.page_table ≡ none) × (flush_page full_pool 0 ≡ ok (full_pool, false)))
    ⊎ ((f : ℕ) × (lookup 0 full_pool.page_table ≡ some f)
        × Flushed full_pool 0 f (flush_page full_pool 0))
flush_page_lem_example = flush_page_lem full_pool 0 full_pool-IsValid

new_page_lem_example :
    ((new_page full_pool ≡ ok (full_pool, none))
      × ((f : ℕ) → f < full_pool.pool_size → 0 < (full_pool.pages f).pin_count))
    ⊎ Created full_pool (new_page full_pool)
new_page_lem_example = new_page_lem full_pool full_pool-IsValid (omega arith)

delete_page_lem_example :
    (d : DiskManager) × Marks true full_pool.disk 0 d
    × Deleted full_pool 0 d (delete_page full_pool 0)
delete_page_lem_example =
    delete_page_lem full_pool 0 full_pool-IsValid (omega arith) one_disk-in_use

flush_all_lem_example :
    (p' : BufferPool) × (flush_all full_pool full_pool.page_table ≡ ok p')
    × ((m : ℕ) → m < max_extents * bitmap_size → p'.disk.file (map_page_id m) ≡ view full_pool m)
flush_all_lem_example = flush_all_lem full_pool full_pool-IsValid

new_pool-IsValid_example :
    IsValid (new_pool 2 one_disk)
    × ((m : ℕ) → view (new_pool 2 one_disk) m ≡ one_disk.file (map_page_id m))
new_pool-IsValid_example = new_pool-IsValid 2 one_disk one_disk-IsValid

run-run_queue_example :
    run empty_replacer (unpin_call 4 ∷ unpin_call 5 ∷ pin_call 4 ∷ victim_call ∷ size_call ∷ [])
    ≡ run_queue [] (unpin_call 4 ∷ unpin_call 5 ∷ pin_call 4 ∷ victim_call ∷ size_call ∷ [])
run-run_queue_example =
    run-run_queue (unpin_call 4 ∷ unpin_call 5 ∷ pin_call 4 ∷ victim_call ∷ size_call ∷ [])
