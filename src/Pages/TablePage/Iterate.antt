-- ===== src/Pages/TablePage/Iterate.antt =====
-- GetFirstTupleRid and GetNextTupleRid of page/table_page.cpp.
use wslproject.Base.{
  ℕ, zero, suc, ◌+◌, ◌-◌, ◌*◌, ◌%◌, ◌^◌, ◌<◌, ◌≡◌, refl, ◌∙◌, inl, inr, Bool, true, false, not,
  List, [], ◌∷◌, map, Option, none, some, Result, ok, err, out_of_range, ◌>>=◌, >>=-assoc,
  if◌then◌else◌, arith, ==_refl, Bool-cases,
}
use wslproject.Base.Memory.{word, load_u32, load_u32-eq}
use wslproject.Record.Row.{RowId}
use wslproject.Pages.TablePage.{
  is_deleted, find_live_slot, rid_found, get_first_tuple_rid, get_next_tuple_rid,
}
use wslproject.Pages.TablePage.Layout.{
  count, size, view, IsValid, slot_state, empty_slot, marked_slot, live_slot, is_deleted_live,
  is_deleted_marked,
}

-- A slot with a tuple that is not marked.
abbrev pub is_live : Option (Bool × List ℕ) → Bool
is_live none = false
is_live (some (marked, bytes)) = not marked

-- The slots from `i` on, `k` of them, whose tuples are live, in their order.
unfoldable pub live_from : List ℕ → ℕ → ℕ → List ℕ
live_from p i zero = []
live_from p i (suc k) =
    let rest = live_from p (i + 1) k in if is_live (view p i) then i ∷ rest else rest

-- A scan: the first address, and then the next one while there is one. With no fuel left it fails.
unfoldable pub follow : List ℕ → ℕ → RowId → Bool → Result (List RowId)
follow p zero rid more = err out_of_range
follow p (suc fuel) rid false = ok []
follow p (suc fuel) rid true = do
  (next, more) ← get_next_tuple_rid p rid
  rest ← follow p fuel next more
  ok (rid ∷ rest)

unfoldable pub scan : List ℕ → ℕ → Result (List RowId)
unfolding follow
scan p fuel = do (first, more) ← get_first_tuple_rid p; follow p fuel first more

abbrev pub rid_in : List ℕ → ℕ → RowId
rid_in p i = record { page_id = word p 0; slot_num = i }

is_live-view :
    (p : List ℕ) (i : ℕ)
    → IsValid p
    → i < count p
    → is_live (view p i) ≡ not (is_deleted (size p i))
is_live-view p i v h = elim (slot_state p i v h) [
  | empty_slot e seen ↦ rw (seen, e) refl
  | marked_slot lo up seen ↦ rw (seen, is_deleted_marked (size p i) lo up) refl
  | live_slot lo up seen ↦ rw (seen, is_deleted_live (size p i) lo up) refl
]

-- What a scan does from a slot on.
from_slot : List ℕ → ℕ → ℕ → ℕ → Result (List RowId)
from_slot p fuel i k = do
  found ← find_live_slot p i k
  (rid, more) ← rid_found p found
  follow p fuel rid more

module _ (p : List ℕ) (v : IsValid p) where
  find_live_slot_total :
      (k i : ℕ) → i + k ≡ count p → (r : Option ℕ) × (find_live_slot p i k ≡ ok r)
  unfolding find_live_slot
  find_live_slot_total zero i e = (none, refl)
  find_live_slot_total (suc k) i e =
      let sized = load_u32-eq p (28 + 8 * i) (omega (arith, v.sized, v.layout)) in
      elim (Bool-cases (is_deleted (size p i))) [
        | inl deleted ↦
            let (r, found) = find_live_slot_total k (i + 1) (omega arith) in
            (r, rw (sized, deleted) found)
        | inr live ↦ (some i, rw (sized, live) refl)
      ]

  page_id_read : load_u32 p 0 ≡ ok (word p 0)
  page_id_read = load_u32-eq p 0 (omega (arith, v.sized))

  next_found :
      (fuel i k : ℕ) (r : Option ℕ)
      → i + 1 + k ≡ count p
      → find_live_slot p (i + 1) k ≡ ok r
      → follow p (suc fuel) (rid_in p i) true
        ≡ (from_slot p fuel (i + 1) k >>= λ rest. ok (rid_in p i ∷ rest))
  unfolding follow get_next_tuple_rid from_slot rid_found
  next_found fuel i k none e found =
      let counted = load_u32-eq p 20 (omega (arith, v.sized)) in
      let start : (i + 1) % 2 ^ 32 ≡ i + 1 = omega (arith, v.layout) in
      let rounds : count p - (i + 1) ≡ k = omega arith in
      rw (page_id_read, ==_refl (word p 0), counted, start, rounds, found) refl
  next_found fuel i k (some j) e found =
      let counted = load_u32-eq p 20 (omega (arith, v.sized)) in
      let start : (i + 1) % 2 ^ 32 ≡ i + 1 = omega (arith, v.layout) in
      let rounds : count p - (i + 1) ≡ k = omega arith in
      rw (page_id_read, ==_refl (word p 0), counted, start, rounds, found) (rw page_id_read refl)

  get_next-from_slot :
      (fuel i k : ℕ)
      → i + 1 + k ≡ count p
      → follow p (suc fuel) (rid_in p i) true
        ≡ (from_slot p fuel (i + 1) k >>= λ rest. ok (rid_in p i ∷ rest))
  get_next-from_slot fuel i k e =
      let (r, found) = find_live_slot_total k (i + 1) e in next_found fuel i k r e found

  from_slot_lem :
      (k i fuel : ℕ)
      → i + k ≡ count p
      → k < fuel
      → from_slot p fuel i k ≡ ok (map (rid_in p) (live_from p i k))
  unfolding from_slot find_live_slot rid_found live_from follow
  from_slot_lem zero i zero e enough = absurd (omega arith)
  from_slot_lem zero i (suc fuel) e enough = refl
  from_slot_lem (suc k) i zero e enough = absurd (omega arith)
  from_slot_lem (suc k) i (suc fuel) e enough =
      let sized = load_u32-eq p (28 + 8 * i) (omega (arith, v.sized, v.layout)) in
      let state = is_live-view p i v (omega arith) in
      elim (Bool-cases (is_deleted (size p i))) [
        | inl deleted ↦
            rw (state, sized, deleted)
              (from_slot_lem k (i + 1) (suc fuel) (omega arith) (omega arith))
        | inr live ↦
            rw (state, sized, live, page_id_read)
              (get_next-from_slot fuel i k (omega arith)
                ∙ rw (from_slot_lem k (i + 1) fuel (omega arith) (omega arith)) refl)
      ]

-- A scan of a valid page that has one unit of fuel more than there are slots ends, and gives the addresses
-- of the slots with live tuples, each of them once and in the order of the slots.
pub scan-live_from :
    (p : List ℕ) (fuel : ℕ)
    → IsValid p
    → count p < fuel
    → scan p fuel ≡ ok (map (rid_in p) (live_from p 0 (count p)))
unfolding scan get_first_tuple_rid from_slot
scan-live_from p fuel v enough = rw (load_u32-eq p 20 (omega (arith, v.sized))) (
    >>=-assoc (find_live_slot p 0 (count p)) (rid_found p) (λ x. follow p fuel x.0 x.1)
    ∙ from_slot_lem p v (count p) 0 fuel (omega arith) enough)
