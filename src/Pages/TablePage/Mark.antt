-- ===== src/Pages/TablePage/Mark.antt =====
-- MarkDelete of page/table_page.cpp.
use wslproject.Base.{
  ℕ, ◌+◌, ◌*◌, ◌%◌, ◌^◌, ◌≤◌, ◌<◌, ◌≡◌, ◌≢◌, ◌⊎◌, inl, inr, refl, sym, ap, ◌∙◌, Bool, true, false,
  List, Option, none, some, ◌==◌, ltb, leb, if◌then◌else◌, length, arith, ok, leb→le, leb→lt,
  lt→leb, ltb→lt, lt→ltb, ==_refl, ==_ne, Bool-cases, ltb→le,
}
use mathlib.Core.Path.{subst}
use native.Mathlib.Decide.{ℕ_discrete}
use wslproject.Base.Bytes.{length-write_u32}
use wslproject.Base.Memory.{word, slice, put, load_u32-eq, store_u32-eq}
use wslproject.Base.Blocks.{length-splice, word-put, slice-splice}
use wslproject.Record.Row.{RowId}
use wslproject.Pages.TablePage.{set_deleted_flag, mark_delete}
use wslproject.Pages.TablePage.Layout.{
  free_space, count, offset, size, SameLinks, tuple_at, view, Layout_kept, IsValid, view_in,
  view_beyond, empty_slot, marked_slot, live_slot, slot_state, tuple_at-marked, is_deleted_live,
  is_deleted_marked, view_kept, tuple_at_kept,
}

-- The size of a slot is written.
module _ (p : List ℕ) (i n : ℕ) (v : IsValid p) (hi : i < count p) (small : n < 2 ^ 32) where
  abbrev resized : List ℕ
  resized = put p (28 + 8 * i) n

  slot_in_page : 32 + 8 * i ≤ length p
  slot_in_page = omega (arith, v.sized, v.layout)

  word-resized : (q : ℕ) → q % 4 ≡ 0 → word resized q ≡ (if 28 + 8 * i == q then n else word p q)
  word-resized q aligned =
      word-put p (28 + 8 * i) n q (omega arith) (omega (arith, slot_in_page)) small

  count-resized : count resized ≡ count p
  count-resized = word-resized 20 refl ∙ ground arith

  offset-resized : (j : ℕ) → offset resized j ≡ offset p j
  offset-resized j = word-resized (24 + 8 * j) (omega arith) ∙ ground arith

  size-resized : (j : ℕ) → size resized j ≡ (if i == j then n else size p j)
  size-resized j = word-resized (28 + 8 * j) (omega arith) ∙ ground arith

  links-resized : SameLinks p resized
  links-resized = (
    word-resized 0 refl ∙ ground arith,
    word-resized 8 refl ∙ ground arith,
    word-resized 12 refl ∙ ground arith,
  )

  slice-resized : (o k : ℕ) → free_space p ≤ o → o + k ≤ 4096 → slice resized o k ≡ slice p o k
  slice-resized o k lo up =
      slice-splice p (28 + 8 * i) _ o k (omega (arith, slot_in_page, length-write_u32 n))
        (omega (arith, v.sized)) (inr (omega (arith, v.layout.room, length-write_u32 n)))

  -- A size that differs in the mark alone.
  resized-IsValid : (n ≢ 0 → size p i ≢ 0) → n % 2 ^ 31 ≡ size p i % 2 ^ 31 → IsValid resized
  resized-IsValid old same = record {
    sized = length-splice p (28 + 8 * i) _ ∙ v.sized;
    layout =
        Layout_kept (count p) _ (free_space p) _ (offset p) (size p) (offset resized) (size resized)
          v.layout count-resized space (λ j h. kept j h);
  }
    where
      space : free_space resized ≡ free_space p
      space = word-resized 16 refl ∙ ground arith

      kept :
          (j : ℕ)
          → j < count p
          → (size resized j < 2 ^ 32)
            × (size resized j ≢ 0
                → (size p j ≢ 0)
                  × (offset resized j ≡ offset p j)
                  × (size resized j % 2 ^ 31 ≡ size p j % 2 ^ 31))
      kept j h = elim (ℕ_discrete i j) [
        | yes e ↦
            let own : size resized j ≡ n = size-resized j ∙ rw (← e, ==_refl i) refl in
            let before : size p j ≡ size p i = ap (size p) (sym e) in
            (
              omega (arith, own),
              λ u. (
                (λ z. old (λ e'. u (own ∙ e')) (sym before ∙ z)),
                offset-resized j,
                omega (arith, own, before),
              ),
            )
        | no ne ↦
            let other : size resized j ≡ size p j = size-resized j ∙ rw (==_ne i j ne) refl in
            (
              omega (arith, other, v.layout.small j h),
              λ used. ((λ z. used (other ∙ z)), offset-resized j, ap (λ (t : ℕ). t % 2 ^ 31) other),
            )
      ]

  -- The slot has the same bytes under the new size; every other slot has what it had.
  view-resized :
      (n ≢ 0 → size p i ≢ 0)
      → n % 2 ^ 31 ≡ size p i % 2 ^ 31
      → (j : ℕ) → view resized j ≡ (if i == j then tuple_at p (offset p i) n else view p j)
  view-resized used same j = elim (ℕ_discrete i j) [
    | yes e ↦ rw (← e, ==_refl i) own
    | no ne ↦ rw (==_ne i j ne) (elim (Bool-cases (ltb j (count p))) [
      | inl h ↦
          let old = ltb→lt j (count p) h in
          let other : size resized j ≡ size p j = size-resized j ∙ rw (==_ne i j ne) refl in
          view_kept p resized j old (omega (arith, count-resized)) other (λ u.
            let w = v.layout.within j old u in
            rw (offset-resized j) (slice-resized (offset p j) _ w.0 w.2))
      | inr h ↦
          let far = ltb→le j (count p) h in
          view_beyond resized j (omega (arith, count-resized)) ∙ sym (view_beyond p j far)
    ])
  ]
    where
      own : view resized i ≡ tuple_at p (offset p i) n
      own =
          view_in resized i (omega (arith, count-resized))
          ∙ ap (tuple_at resized (offset resized i)) (size-resized i ∙ rw (==_refl i) refl)
          ∙ tuple_at_kept p resized (offset p i) (offset resized i) n (λ u.
            let w = v.layout.within i hi (used u) in
            rw (offset-resized i, same) (slice-resized (offset p i) _ w.0 w.2))

-- The page with one slot changed.
abbrev pub Changes : List ℕ → ℕ → Option (Bool × List ℕ) → List ℕ → Type 0
Changes p i tuple p' =
    ((j : ℕ) → view p' j ≡ (if i == j then tuple else view p j)) × IsValid p' × SameLinks p p'

abbrev pub MarksDelete : List ℕ → RowId → Type 0
MarksDelete p rid =
    ((p' : List ℕ) × (bytes : List ℕ) × (view p rid.slot_num ≡ some (false, bytes))
      × (mark_delete p rid ≡ ok (p', true))
      × Changes p rid.slot_num (some (true, bytes)) p')
    ⊎ (((bytes : List ℕ) → view p rid.slot_num ≢ some (false, bytes))
        × (mark_delete p rid ≡ ok (p, false)))

pub resized-Changes :
    (p : List ℕ) (i n : ℕ)
    → IsValid p
    → i < count p
    → (n ≢ 0 → size p i ≢ 0)
    → n < 2 ^ 32
    → n % 2 ^ 31 ≡ size p i % 2 ^ 31
    → Changes p i (tuple_at p (offset p i) n) (put p (28 + 8 * i) n)
resized-Changes p i n v h used small same = (
  view-resized p i n v h small used same,
  resized-IsValid p i n v h small used same,
  links-resized p i n v h small,
)

mark_in_use : (p : List ℕ) (rid : RowId) → IsValid p → rid.slot_num < count p → MarksDelete p rid
unfolding mark_delete
mark_in_use p rid v h =
    let i : ℕ = rid.slot_num in
    let s : ℕ = size p i in
    let counted = load_u32-eq p 20 (omega (arith, v.sized)) in
    let sized = load_u32-eq p (28 + 8 * i) (omega (arith, v.sized, v.layout)) in
    let inside = lt→leb (count p) i h in
    elim (slot_state p i v h) [
      | empty_slot e seen ↦ inr ((λ bytes z. cc), rw (counted, inside, sized, e) refl)
      | marked_slot lo up seen ↦
          inr ((λ bytes z. cc), rw (counted, inside, sized, is_deleted_marked s lo up) refl)
      | live_slot lo up seen ↦
          let flag : set_deleted_flag s ≡ s + 2 ^ 31 = omega arith in
          let high : 2 ^ 31 ≤ s + 2 ^ 31 = omega arith in
          let rest : (s + 2 ^ 31) % 2 ^ 31 ≡ s = omega arith in
          inl (
            put p (28 + 8 * i) (s + 2 ^ 31),
            slice p (offset p i) s,
            seen,
            rw
                (
                  counted,
                  inside,
                  sized,
                  is_deleted_live s lo up,
                  lt→ltb 0 s lo,
                  flag,
                  store_u32-eq p (28 + 8 * i) (s + 2 ^ 31) (omega (arith, v.sized, v.layout)),
                )
                refl,
            subst (λ (t : Option (Bool × List ℕ)). Changes p i t (put p (28 + 8 * i) (s + 2 ^ 31)))
                (tuple_at-marked p (offset p i) (s + 2 ^ 31) high (omega arith)
                  ∙ ap (λ (t : ℕ). some (true, slice p (offset p i) t)) rest)
                (resized-Changes p i (s + 2 ^ 31) v h (λ _ e. omega arith) (omega arith)
                  (omega arith)),
          )
    ]

-- MarkDelete in a valid page. A slot with a live tuple is marked: its bytes stay, no other slot changes,
-- and the page is valid again. For every other slot it answers false and changes nothing.
pub mark_delete_lem : (p : List ℕ) (rid : RowId) → IsValid p → MarksDelete p rid
unfolding mark_delete
mark_delete_lem p rid v = elim (Bool-cases (leb (count p) rid.slot_num)) [
  | inl beyond ↦ inr (
    (λ bytes e. absurd_none (sym (view_beyond p rid.slot_num (leb→le _ _ beyond)) ∙ e)),
    rw (load_u32-eq p 20 (omega (arith, v.sized)), beyond) refl,
  )
  | inr within ↦ mark_in_use p rid v (leb→lt _ _ within)
]
  where
    absurd_none : {t : Bool × List ℕ} → none ≡ some t → ⊥
    absurd_none e = cc
