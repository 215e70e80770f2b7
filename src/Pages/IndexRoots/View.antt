-- ===== src/Pages/IndexRoots/View.antt =====
-- The index roots page as a finite map (page/index_roots_page.cpp).
use wslproject.Base.{
  ℕ, zero, suc, ◌⊎◌, ◌+◌, ◌-◌, ◌≤◌, ◌<◌, ◌≡◌, refl, ap, ◌∙◌, true, false, List, [], ◌∷◌, Option,
  none, some, ok, err, out_of_bounds, ◌==◌, ltb, if◌then◌else◌, length, get_or, set, take, arith,
  inl, inr, ltb→lt, length-set, Bool-cases,
}
use wslproject.Base.Assoc.{lookup}
use wslproject.Pages.IndexRoots.Entries.{
  Distinct, take-set_end, lookup-snoc, Distinct-snoc, Distinct-set_second, lookup-set_second,
  remove_at, length-shift_from, take-shift_from, lookup-remove_at, Distinct-remove_at,
}
use wslproject.Pages.IndexRoots.{
  IndexRootsPage, find_from, find_index, insert, delete, update, get_root_id, shift_from,
  set_second,
}

-- The entries in use, and the map that they make.
abbrev pub entries : IndexRootsPage → List (ℕ × ℕ)
entries p = take p.count p.roots

abbrev pub view : IndexRootsPage → ℕ → Option ℕ
view p k = lookup k (entries p)

-- The counter stays within the page, and every id has one entry at most.
pub record IsValid (p : IndexRootsPage) : Type 0 where
  pub within : p.count ≤ length p.roots
  pub distinct : Distinct (entries p)

-- The search is a lookup in the entries.
find_from-lookup :
    (l : List (ℕ × ℕ)) (i k key : ℕ)
    → k ≤ length l
    → ((find_from i k l key ≡ none) × (lookup key (take k l) ≡ none))
      ⊎ ((j : ℕ) × (find_from i k l key ≡ some (i + j))
          × (j < k)
          × (lookup key (take k l) ≡ some (get_or l j (0, 0)).1)
          × ((get_or l j (0, 0)).0 ≡ key))
unfolding find_from lookup
find_from-lookup l i zero key h = inl (refl, refl)
find_from-lookup [] i (suc k) key h = absurd (omega arith)
find_from-lookup (r ∷ l) i (suc k) key h = elim (Bool-cases (r.0 == key)) [
  | inl e ↦ inr (0, rw e (ap some (omega arith)), omega arith, rw e, ground arith)
  | inr e ↦ elim (find_from-lookup l (suc i) k key (omega arith)) [
    | inl (a, b) ↦ inl (rw (e, a), rw (e, b))
    | inr (j, a, b, c, d) ↦
        inr (suc j, rw (e, a) (ap some (omega arith)), omega arith, rw (e, c), d)
  ]
]

-- What FindIndex finds, in terms of the view.
data Found (p : IndexRootsPage) (key : ℕ) : Type 0 where
  missing : find_index p key ≡ none → view p key ≡ none → Found p key
  found :
      (j : ℕ)
      → find_index p key ≡ some j
      → j < p.count
      → view p key ≡ some (get_or p.roots j (0, 0)).1
      → (get_or p.roots j (0, 0)).0 ≡ key
      → Found p key

find_index-Found : (p : IndexRootsPage) (key : ℕ) → p.count ≤ length p.roots → Found p key
find_index-Found p key h = elim (find_from-lookup p.roots 0 p.count key h) [
  | inl (a, b) ↦ missing a b
  | inr (j, a, b, c, d) ↦ found j (a ∙ ap some (omega arith)) b c d
]

-- GetRootId is a lookup in the view.
pub get_root_id-view : (p : IndexRootsPage) (key : ℕ) → IsValid p → get_root_id p key ≡ view p key
unfolding get_root_id
get_root_id-view p key v = go (find_index-Found p key v.within)
  where
    go : Found p key → get_root_id p key ≡ view p key
    go (missing a b) = ground arith
    go (found j a b c d) = ground arith

-- Insert: a known id is refused and nothing changes; a new one is added, and the view changes at it
-- alone; but on a full page the entry is written past the array.
pub insert-view :
    (p : IndexRootsPage) (key root : ℕ)
    → IsValid p
    → ((r : ℕ) × (view p key ≡ some r) × (insert p key root ≡ ok (p, false)))
      ⊎ ((view p key ≡ none) × (p.count ≡ length p.roots) × (insert p key root ≡ err out_of_bounds))
      ⊎ ((q : IndexRootsPage) × (view p key ≡ none)
          × (insert p key root ≡ ok (q, true))
          × IsValid q
          × ((j : ℕ) → view q j ≡ (if key == j then some root else view p j)))
unfolding insert
insert-view p key root v = elim (find_index-Found p key v.within) [
  | found j a b c d ↦ inl (_, c, ground arith)
  | missing a b ↦ elim (Bool-cases (ltb p.count (length p.roots))) [
    | inl e ↦
        let room : p.count < length p.roots = ltb→lt _ _ e in
        let put = take-set_end p.roots p.count (key, root) room in
        let q : IndexRootsPage = record {
          count = suc p.count;
          roots = set p.roots p.count (key, root);
        } in
        inr (
          inr (
            q,
            b,
            ground arith,
            record {
              within = omega (arith, length-set p.roots p.count (key, root));
              distinct = rw put (Distinct-snoc (entries p) key root b v.distinct);
            },
            λ j. rw put (lookup-snoc (entries p) key j root b),
          ))
    | inr e ↦ inr (inl (b, ground arith, ground arith))
  ]
]

-- Update: an unknown id is refused and nothing changes; at a known one the view changes, alone.
pub update-view :
    (p : IndexRootsPage) (key root : ℕ)
    → IsValid p
    → ((view p key ≡ none) × (update p key root ≡ (p, false)))
      ⊎ ((q : IndexRootsPage) × (r : ℕ) × (view p key ≡ some r)
          × (update p key root ≡ (q, true))
          × IsValid q
          × ((j : ℕ) → view q j ≡ (if key == j then some root else view p j)))
unfolding update
update-view p key root v = elim (find_index-Found p key v.within) [
  | missing a b ↦ inl (b, ground arith)
  | found j a b c d ↦ inr (
    record p { roots = set_second p.roots j root },
    _,
    c,
    ground arith,
    record {
      within = omega (arith, length-set p.roots j ((get_or p.roots j (0, 0)).0, root));
      distinct = Distinct-set_second p.roots p.count j root v.distinct;
    },
    λ i. rw (← d) (lookup-set_second p.roots p.count j root i b v.within v.distinct),
  )
]

-- Delete: an unknown id is refused and nothing changes; a known one is gone, and no other.
pub delete-view :
    (p : IndexRootsPage) (key : ℕ)
    → IsValid p
    → ((view p key ≡ none) × (delete p key ≡ (p, false)))
      ⊎ ((q : IndexRootsPage) × (r : ℕ) × (view p key ≡ some r)
          × (delete p key ≡ (q, true))
          × IsValid q
          × ((j : ℕ) → view q j ≡ (if key == j then none else view p j)))
unfolding delete
delete-view p key v = elim (find_index-Found p key v.within) [
  | missing a b ↦ inl (b, ground arith)
  | found j a b c d ↦
      let m : ℕ = p.count - 1 - j in
      let one : suc (p.count - 1) ≡ p.count = omega arith in
      let cut : take (p.count - 1) (shift_from j m p.roots) ≡ remove_at j (take p.count p.roots) =
        take-shift_from p.roots j m (p.count - 1) (omega arith) (omega arith)
        ∙ ap (λ (k : ℕ). remove_at j (take k p.roots)) one in
      inr (
        record { count = p.count - 1; roots = shift_from j m p.roots },
        _,
        c,
        ground arith,
        record {
          within = omega (arith, length-shift_from j m p.roots);
          distinct = rw cut (Distinct-remove_at (entries p) j v.distinct);
        },
        λ i. rw (cut, ← d) (lookup-remove_at p.roots p.count j i b v.within v.distinct),
      )
]
