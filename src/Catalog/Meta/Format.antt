-- ===== src/Catalog/Meta/Format.antt =====
-- The storage format of CatalogMeta (catalog/catalog.cpp).
use wslproject.Base.{
  ℕ, ◌+◌, ◌*◌, ◌<◌, ◌≡◌, refl, sym, ap, ◌∙◌, true, List, [], ◌∷◌, ◌++◌, ok, leb, length,
  length-append, arith, All,
}
use wslproject.Base.Bytes.{IsU32, write_u32, read_u32-write_u32, length-write_u32}
use wslproject.Catalog.Meta.{
  CatalogMeta, catalog_metadata_magic_num, emplace, catalog_meta_size, write_entries,
  serialize_catalog_meta, read_entries, deserialize_catalog_meta,
}
use mathlib.Core.List.{append_assoc, append-nil}

-- The keys ascend, as those of a std::map do.
abbrev pub Ascends : List (ℕ × ℕ) → Type 0
Ascends [] = Unit {0}
Ascends (x ∷ l) = All (λ (e : ℕ × ℕ). x.0 < e.0) l × Ascends l

abbrev pub Entry : ℕ × ℕ → Type 0
Entry e = IsU32 e.0 × IsU32 e.1

-- Each key of `l` is behind each of `acc`.
abbrev Behind : List (ℕ × ℕ) → List (ℕ × ℕ) → Type 0
Behind acc l = All (λ (e : ℕ × ℕ). All (λ (a : ℕ × ℕ). a.0 < e.0) acc) l

emplace_last :
    (id page : ℕ) (acc : List (ℕ × ℕ))
    → All (λ (a : ℕ × ℕ). a.0 < id) acc
    → emplace id page acc ≡ acc ++ ((id, page) ∷ [])
unfolding emplace
emplace_last id page [] h = refl
emplace_last id page (a ∷ acc) h = ground (arith, h.0, emplace_last id page acc h.1)

All-snoc :
    (k : ℕ) (x : ℕ × ℕ) (acc : List (ℕ × ℕ))
    → All (λ (a : ℕ × ℕ). a.0 < k) acc
    → x.0 < k
    → All (λ (a : ℕ × ℕ). a.0 < k) (acc ++ (x ∷ []))
All-snoc k x [] h p = (p, tt)
All-snoc k x (a ∷ acc) h p = (h.0, All-snoc k x acc h.1 p)

Behind-snoc :
    (x : ℕ × ℕ) (acc l : List (ℕ × ℕ))
    → Behind acc l
    → All (λ (e : ℕ × ℕ). x.0 < e.0) l
    → Behind (acc ++ (x ∷ [])) l
Behind-snoc x acc [] h p = tt
Behind-snoc x acc (e ∷ l) h p = (All-snoc e.0 x acc h.0 p.0, Behind-snoc x acc l h.1 p.1)

Behind-empty : (l : List (ℕ × ℕ)) → Behind [] l
Behind-empty [] = tt
Behind-empty (e ∷ l) = (tt, Behind-empty l)

read_entries-write_entries :
    (l acc : List (ℕ × ℕ)) (rest : List ℕ)
    → Ascends l
    → All Entry l
    → Behind acc l
    → read_entries (length l) (write_entries l ++ rest) acc ≡ ok (acc ++ l, rest)
unfolding read_entries write_entries
read_entries-write_entries [] acc rest s v b =
    ap (λ (t : List (ℕ × ℕ)). ok (t, rest)) (sym (append-nil acc))
read_entries-write_entries (x ∷ l) acc rest s v b = simp append_assoc (
    rw
      (read_u32-write_u32 x.0 _ v.0.0, read_u32-write_u32 x.1 _ v.0.1, emplace_last x.0 x.1 acc b.0)
      (read_entries-write_entries l (acc ++ (x ∷ [])) rest s.1 v.1 (Behind-snoc x acc l b.1 s.0)
        ∙ ap (λ (t : List (ℕ × ℕ)). ok (t, rest)) (append_assoc acc (x ∷ []) l)))

length-write_entries : (l : List (ℕ × ℕ)) → length (write_entries l) ≡ 8 * length l
unfolding write_entries
length-write_entries [] = refl
length-write_entries (x ∷ l) = omega (
  arith,
  length-append (write_u32 x.0) (write_u32 x.1 ++ write_entries l),
  length-append (write_u32 x.1) (write_entries l),
  length-write_u32 x.0,
  length-write_u32 x.1,
  length-write_entries l,
)

-- A catalog record of fewer than 510 tables and indexes, its keys in order, fits a page; it is written in
-- eight bytes less than GetSerializedSize says, and DeserializeFrom reads the same maps back, whatever
-- lies behind.
pub deserialize_catalog_meta-serialize :
    (meta : CatalogMeta) (rest : List ℕ)
    → Ascends meta.table_meta_pages
    → Ascends meta.index_meta_pages
    → All Entry meta.table_meta_pages
    → All Entry meta.index_meta_pages
    → length meta.table_meta_pages + length meta.index_meta_pages < 510
    → (bytes : List ℕ) × (serialize_catalog_meta meta ≡ ok bytes)
      × (length bytes + 8 ≡ catalog_meta_size meta)
      × (deserialize_catalog_meta (bytes ++ rest) ≡ ok meta)
unfolding serialize_catalog_meta catalog_meta_size deserialize_catalog_meta
deserialize_catalog_meta-serialize meta rest st si vt vi few =
    let tables : List (ℕ × ℕ) = meta.table_meta_pages in
    let indexes : List (ℕ × ℕ) = meta.index_meta_pages in
    let bytes : List ℕ =
      write_u32 catalog_metadata_magic_num
      ++ (write_u32 (length tables)
          ++ (write_u32 (length indexes) ++ (write_entries tables ++ write_entries indexes))) in
    let fits : leb (catalog_meta_size meta) 4096 ≡ true = ground arith in
    (
      bytes,
      rw fits refl,
      simp (length-append, length-write_u32, length-write_entries) (omega arith),
      simp append_assoc (
          rw
            (
              read_u32-write_u32 catalog_metadata_magic_num _ (omega arith),
              read_u32-write_u32 (length tables) _ (omega arith),
              read_u32-write_u32 (length indexes) _ (omega arith),
              read_entries-write_entries tables [] (write_entries indexes ++ rest) st vt
                  (Behind-empty tables),
              read_entries-write_entries indexes [] rest si vi (Behind-empty indexes),
            )
            refl),
    )
