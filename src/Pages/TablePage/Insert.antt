-- ===== src/Pages/TablePage/Insert.antt =====
-- InsertTuple of page/table_page.cpp.
use wslproject.Base.{
  [], ◌&&◌, ℕ, zero, suc, ◌+◌, ◌-◌, ◌*◌, ◌%◌, ◌^◌, ◌≤◌, ◌<◌, ◌≡◌, ◌≢◌, ◌⊎◌, inl, inr, refl, ap, ◌∙◌,
  Bool, true, false, List, none, some, ◌==◌, ltb, if◌then◌else◌, length, arith, ok, ltb→lt, lt→ltb,
  le→ltb, ==_refl, Bool-cases, ltb→le, ==_iff,
}
use native.Mathlib.Decide.{ℕ_discrete}
use wslproject.Base.Memory.{word, splice, put, load_u32-eq, store_u32-eq, store-eq}
use wslproject.Record.Row.{Row, serialize_row, row_serialized_size}
use wslproject.Record.Schema.{Schema}
use wslproject.Record.Row.Format.{IsStorable, deserialize_row-serialize_row}
use wslproject.Pages.TablePage.{
  find_free_slot, insert_at, insert_found, insert_tuple, get_free_space_remaining,
}
use wslproject.Pages.TablePage.Layout.{free_space, count, size, SameLinks, view, IsValid}
use wslproject.Pages.TablePage.Placement.{
  placed, Placed, length-placed, placed_old, placed_new, length-claimed, length-written,
  length-with_offset, word-placed, word-claimed, word-written,
}
use wslproject.Pages.TablePage.Placed.{Placed-IsValid, view-Placed_before, view-Placed}

find_free_slot_lem :
    (p : List ℕ) (i k : ℕ)
    → 24 + 8 * (i + k) ≤ length p
    → (r : ℕ) × (find_free_slot p i k ≡ ok r)
      × (i ≤ r)
      × (r ≤ i + k)
      × (r < i + k → size p r ≡ 0)
      × ((j : ℕ) → i ≤ j → j < r → size p j ≢ 0)
unfolding find_free_slot
find_free_slot_lem p i zero h = (
  i,
  refl,
  omega arith,
  omega arith,
  (λ l. absurd (omega arith)),
  (λ j l m. absurd (omega arith)),
)
find_free_slot_lem p i (suc k) h = elim (Bool-cases (size p i == 0)) [
  | inl e ↦ (
    i,
    rw (load_u32-eq p (28 + 8 * i) (omega arith), e) refl,
    omega arith,
    omega arith,
    (λ l. (==_iff (size p i) 0).0 e),
    (λ j l m. absurd (omega arith)),
  )
  | inr ne ↦
      let (r, found, lo, hi, empty, before) = find_free_slot_lem p (i + 1) k (omega arith) in
      (
        r,
        rw (load_u32-eq p (28 + 8 * i) (omega arith), ne) found,
        omega arith,
        omega arith,
        (λ l. empty (omega arith)),
        (λ j l m. elim (ℕ_discrete i j) [
          | yes e ↦ rw (← e) (λ z. ground arith)
          | no differ ↦ before j (omega arith) m
        ]),
      )
]

pub get_free_space_remaining-eq :
    (p : List ℕ) → IsValid p → get_free_space_remaining p ≡ ok (free_space p - (24 + 8 * count p))
unfolding get_free_space_remaining
get_free_space_remaining-eq p v =
    rw (load_u32-eq p 16 (omega (arith, v.sized)), load_u32-eq p 20 (omega (arith, v.sized)))
      (ap ok (omega (arith, v.layout.room, v.layout.ends)))

-- The page that InsertTuple leaves, with `c` slots before.
abbrev inserted : List ℕ → ℕ → ℕ → List ℕ → ℕ → List ℕ
inserted p i a bs n =
    if i == count p then put (placed p i a bs n) 20 (count p + 1) else placed p i a bs n

module _ (p : List ℕ) (row : Row) (schema : Schema) (i a n : ℕ) (bs : List ℕ) (v : IsValid p)
    (below : a + n ≡ free_space p) (room : 32 + 8 * count p ≤ a) (hi : i ≤ count p)
    (some_bytes : 0 < n) (long : length bs ≡ n)
    (serialized : serialize_row row schema ≡ ok (bs, n)) where
  fits : a + n ≤ 4096
  fits = omega (arith, v.layout.ends)

  within : 32 + 8 * i ≤ a
  within = omega arith

  insert_at-eq :
      insert_at p row schema i n
      ≡ ok (
        inserted p i a bs n,
        record row { rid = record { page_id = word p 0; slot_num = i } },
        true,
      )
  unfolding insert_at
  insert_at-eq =
      rw
        (
          load_u32-eq p 16 (omega (arith, v.sized)),
          pointer,
          store_u32-eq p 16 a (omega (arith, v.sized)),
          load_u32-eq (put p 16 a) 16 (omega (arith, len_claimed)),
          word-claimed p i a n bs v.sized long fits within few,
          serialized,
          store-eq (put p 16 a) a bs (omega (arith, len_claimed)),
          ==_refl n,
          load_u32-eq w 16 (omega (arith, len_written)),
          word-written p i a n bs v.sized long fits within few,
          store_u32-eq w (24 + 8 * i) a (omega (arith, len_written)),
          store_u32-eq (put w (24 + 8 * i) a) (28 + 8 * i) n (omega (arith, len_with_offset)),
          load_u32-eq q 0 (omega (arith, len_placed)),
          load_u32-eq q 20 (omega (arith, len_placed)),
          page_id,
          tuple_count,
        )
        (elim (Bool-cases (i == count p)) [
          | inl e ↦
              rw (e, store_u32-eq q 20 ((count p + 1) % 2 ^ 32) (omega (arith, len_placed)), next)
                refl
          | inr e ↦ rw e refl
        ])
    where
      few : n < 2 ^ 31
      few = omega arith

      pointer : (free_space p + 2 ^ 32 - n) % 2 ^ 32 ≡ a
      pointer = omega (arith, v.layout.ends)

      next : (count p + 1) % 2 ^ 32 ≡ count p + 1
      next = omega arith

      w : List ℕ
      w = splice (put p 16 a) a bs

      q : List ℕ
      q = placed p i a bs n

      len_claimed : length (put p 16 a) ≡ 4096
      len_claimed = length-claimed p i a n bs v.sized long fits within few

      len_written : length w ≡ 4096
      len_written = length-written p i a n bs v.sized long fits within few

      len_with_offset : length (put w (24 + 8 * i) a) ≡ 4096
      len_with_offset = length-with_offset p i a n bs v.sized long fits within few

      len_placed : length q ≡ 4096
      len_placed = length-placed p i a n bs v.sized long fits within few

      page_id : word q 0 ≡ word p 0
      page_id =
          word-placed p i a n bs v.sized long fits within few 0 refl (omega arith) ∙ ground arith

      tuple_count : word q 20 ≡ count p
      tuple_count =
          word-placed p i a n bs v.sized long fits within few 20 refl (omega arith) ∙ ground arith

  inserted-Placed :
      Placed p (inserted p i a bs n) i a n bs (if i == count p then count p + 1 else count p)
  inserted-Placed = elim (Bool-cases (i == count p)) [
    | inl e ↦
        rw e
          (placed_new p i a n bs v.sized long fits within (omega arith) (count p + 1) (omega arith))
    | inr ne ↦ rw ne (placed_old p i a n bs v.sized long fits within (omega arith) (ground arith))
  ]

-- A page with the tuple `bytes` in the first empty slot, and the row with the address of the slot.
abbrev pub Inserts : List ℕ → Row → Schema → List ℕ → Type 0
Inserts p row schema bytes =
    (p' : List ℕ) × (i : ℕ) × (insert_tuple p row schema
      ≡ ok (p', record row { rid = record { page_id = word p 0; slot_num = i } }, true))
    × (view p i ≡ none)
    × ((j : ℕ) → j < i → view p j ≢ none)
    × ((j : ℕ) → view p' j ≡ (if i == j then some (false, bytes) else view p j))
    × IsValid p'
    × SameLinks p p'

view-ne-none : (p : List ℕ) (j : ℕ) → j < count p → size p j ≢ 0 → view p j ≢ none
view-ne-none p j h used e = ground arith

and_false : (b : Bool) → (b && false) ≡ false
and_false true = refl
and_false false = refl

-- There is room: the tuple is placed in the slot that the search finds.
insert_found_lem :
    (p : List ℕ) (row : Row) (schema : Schema) (bytes : List ℕ)
    → IsValid p
    → serialize_row row schema ≡ ok (bytes, length bytes)
    → row_serialized_size row schema ≡ ok (length bytes)
    → 0 < length bytes
    → 24 + 8 * count p + (length bytes + 8) ≤ free_space p
    → (i : ℕ) → find_free_slot p 0 (count p) ≡ ok i
    → i ≤ count p
    → (i < count p → size p i ≡ 0)
    → ((j : ℕ) → j < i → size p j ≢ 0)
    → Inserts p row schema bytes
unfolding insert_tuple insert_found
insert_found_lem p row schema bytes v serialized sized pos room i found most free before =
    let n : ℕ = length bytes in
    let a : ℕ = free_space p - n in
    let below : a + n ≡ free_space p = omega arith in
    let enough = le→ltb (free_space p - (24 + 8 * count p)) (n + 8) (omega arith) in
    let few : n < 2 ^ 31 = omega (arith, v.layout.ends) in
    let x =
      inserted-Placed p row schema i a n bytes v below (omega arith) most pos refl serialized in
    (
      inserted p i a bytes n,
      i,
      rw
          (
            sized,
            lt→ltb 0 n pos,
            get_free_space_remaining-eq p v,
            enough,
            load_u32-eq p 20 (omega (arith, v.sized)),
            found,
            and_false (i == count p),
          )
          (insert_at-eq p row schema i a n bytes v below (omega arith) most pos refl serialized),
      view-Placed_before p _ i a n bytes _ v x below (omega arith) most free refl pos few,
      (λ j l. view-ne-none p j (omega arith) (before j l)),
      view-Placed p _ i a n bytes _ v x below (omega arith) most free refl pos few,
      Placed-IsValid p _ i a n bytes _ v x below (omega arith) most free refl pos few,
      x.links,
    )

-- InsertTuple of a storable row into a valid page. With less space left than the row's bytes and a slot
-- take, it answers false and changes nothing. Otherwise it writes the bytes of the row into the first
-- slot that has no tuple and answers true with the slot's address in the row; every other slot has
-- what it had, the page keeps its id and its neighbours, and it is valid again.
pub insert_tuple_lem :
    (p : List ℕ) (row : Row) (schema : Schema)
    → IsValid p
    → IsStorable schema row
    → (bytes : List ℕ) × (serialize_row row schema ≡ ok (bytes, length bytes))
      × (((free_space p < 24 + 8 * count p + (length bytes + 8))
            × (insert_tuple p row schema ≡ ok (p, row, false)))
          ⊎ ((24 + 8 * count p + (length bytes + 8) ≤ free_space p) × Inserts p row schema bytes))
unfolding insert_tuple
insert_tuple_lem p row schema v storable =
    let (bytes, serialized, sized, least, _) =
      deserialize_row-serialize_row schema row row.rid [] storable in
    let n : ℕ = length bytes in
    let pos : 0 < n = omega arith in
    (
      bytes,
      serialized,
      elim (Bool-cases (ltb (free_space p - (24 + 8 * count p)) (n + 8))) [
        | inl full ↦ inl (
          omega (arith, ltb→lt _ _ full, v.layout.room),
          rw (sized, lt→ltb 0 n pos, get_free_space_remaining-eq p v, full) refl,
        )
        | inr enough ↦
            let (i, found, _, most, free, before) =
              find_free_slot_lem p 0 (count p) (omega (arith, v.sized, v.layout)) in
            let room : 24 + 8 * count p + (n + 8) ≤ free_space p =
              omega (arith, ltb→le _ _ enough, v.layout.room) in
            inr (
              room,
              insert_found_lem p row schema bytes v serialized sized pos room i found (omega arith)
                  (λ h. free (omega arith)) (λ j h. before j (omega arith) h),
            )
      ],
    )
