-- ===== src/Buffer/Pool/Close.antt =====
-- The destructor of buffer/buffer_pool_manager.cpp.
use wslproject.Base.{
  ℕ, ◌*◌, ◌<◌, ◌≡◌, ◌≢◌, refl, sym, ◌∙◌, List, [], ◌∷◌, some, ok, ◌==◌, ◌⊎◌, inl, inr, arith,
  Option-cases, Bool-cases, All,
}
use native.Mathlib.Decide.{ℕ_discrete}
use mathlib.Core.Path.{subst}
use wslproject.Base.Assoc.{lookup}
use wslproject.Storage.Disk.{bitmap_size, map_page_id}
use wslproject.Storage.Disk.Extents.{max_extents}
use wslproject.Buffer.Pool.{BufferPool, flush_all}
use wslproject.Buffer.Pool.Valid.{IsValid, view, view_of}
use wslproject.Buffer.Pool.Release.{flush_page_lem}

-- The file has the page as the pool shows it.
abbrev pub Saved : BufferPool → ℕ → Type 0
Saved p m = p.disk.file (map_page_id m) ≡ view p m

abbrev Listed : List (ℕ × ℕ) → List (ℕ × ℕ) → Type 0
Listed table l = All (λ (e : ℕ × ℕ). (f : ℕ) × (lookup e.0 table ≡ some f)) l

-- Every entry of a table is found under its key.
All-longer : (e : ℕ × ℕ) (table l : List (ℕ × ℕ)) → Listed table l → Listed (e ∷ table) l
unfolding lookup
All-longer e table [] h = tt
All-longer (k, w) table ((j, g) ∷ l) h = (
  elim (Bool-cases (k == j)) [
    | inl same ↦ (w, ground arith)
    | inr differ ↦ (h.0.0, ground (arith, h.0.1))
  ],
  All-longer (k, w) table l h.1,
)

all-Listed : (table : List (ℕ × ℕ)) → Listed table table
unfolding lookup
all-Listed [] = tt
all-Listed ((k, f) ∷ table) = ((f, ground arith), All-longer (k, f) table table (all-Listed table))

-- What one round of the loop saves, and keeps saved.
Saved-step :
    (p p' : BufferPool) (id m : ℕ)
    → m < max_extents * bitmap_size
    → p'.disk.file (map_page_id id) ≡ view p id
    → (view p' m ≡ view p m) × (m ≢ id → p'.disk.file (map_page_id m) ≡ p.disk.file (map_page_id m))
    → Saved p m ⊎ (m ≡ id)
    → Saved p' m
Saved-step p p' id m hm wrote (seen, kept) before = elim (ℕ_discrete m id) [
  | yes e ↦ rw seen (rw e wrote)
  | no ne ↦ elim before [ inl saved ↦ kept ne ∙ saved ∙ sym seen | inr e ↦ absurd (ne e) ]
]

later :
    (id m g k : ℕ) (l : List (ℕ × ℕ))
    → m ≢ id
    → lookup m ((id, g) ∷ l) ≡ some k
    → lookup m l ≡ some k
unfolding lookup
later id m g k l ne e = ground arith

-- The pages of `l`, and those that were in the file already, are in the file after the loop.
flush_all_from :
    (p : BufferPool) (l : List (ℕ × ℕ))
    → IsValid p
    → Listed p.page_table l
    → (p' : BufferPool) × (flush_all p l ≡ ok p')
      × ((m : ℕ)
          → m < max_extents * bitmap_size
          → (view p' m ≡ view p m) × (Saved p m ⊎ ((f : ℕ) × (lookup m l ≡ some f)) → Saved p' m))
      × IsValid p'
unfolding flush_all lookup
flush_all_from p [] v h = (
  p,
  refl,
  (λ m hm. (refl, λ c. elim c [ inl saved ↦ saved | inr (f, e) ↦ absurd (ground arith) ])),
  v,
)
flush_all_from p ((id, g) ∷ l) v ((f, at), h) = elim (flush_page_lem p id v) [
  | inl (missing, _) ↦ absurd (ground arith)
  | inr (_, _, (p1, flushed, table, wrote, _, pages, v1)) ↦
      let (p2, rest, seen, v2) =
        flush_all_from p1 l v1 (subst (λ (t : List (ℕ × ℕ)). Listed t l) (sym table) h) in
      (
        p2,
        rw flushed rest,
        (λ m hm. (
          (seen m hm).0 ∙ (pages m hm).0,
          λ c. (seen m hm).1 (elim c [
            | inl saved ↦ inl (Saved-step p p1 id m hm wrote (pages m hm) (inl saved))
            | inr (k, e) ↦ elim (ℕ_discrete m id) [
              | yes same ↦ inl (Saved-step p p1 id m hm wrote (pages m hm) (inr same))
              | no ne ↦ inr (k, later id m g k l ne e)
            ]
          ]),
        )),
        v2,
      )
]

-- When the pool of a valid state is closed, every page of the file is as the pool showed it.
pub flush_all_lem :
    (p : BufferPool)
    → IsValid p
    → (p' : BufferPool) × (flush_all p p.page_table ≡ ok p')
      × ((m : ℕ) → m < max_extents * bitmap_size → p'.disk.file (map_page_id m) ≡ view p m)
unfolding view_of
flush_all_lem p v =
    let (p', flushed, pages, _) = flush_all_from p p.page_table v (all-Listed p.page_table) in
    (
      p',
      flushed,
      λ m hm.
          (pages m hm).1 (elim (Option-cases (lookup m p.page_table)) [
            | inl none_yet ↦ inl (rw none_yet refl)
            | inr (f, e) ↦ inr (f, e)
          ])
          ∙ (pages m hm).0,
    )
