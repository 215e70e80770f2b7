-- ===== src/Pages/TablePage/Rollback.antt =====
-- RollbackDelete of page/table_page.cpp.
use wslproject.Base.{
  ℕ, ◌+◌, ◌*◌, ◌%◌, ◌^◌, ◌≤◌, ◌<◌, ◌≡◌, ◌⊎◌, inl, inr, refl, sym, ap, ◌∙◌, Bool, false, List,
  Option, none, some, ltb, arith, ok, err, assertion, ltb→lt, lt→ltb, ==_refl, ==_ne, Bool-cases,
  ltb→le,
}
use mathlib.Core.Path.{subst}
use native.Mathlib.Decide.{ℕ_discrete}
use wslproject.Base.Memory.{put, load_u32-eq, store_u32-eq}
use wslproject.Record.Row.{RowId}
use wslproject.Pages.TablePage.{unset_deleted_flag, rollback_delete}
use wslproject.Pages.TablePage.Layout.{
  count, offset, size, view, IsValid, empty_slot, marked_slot, live_slot, slot_state,
  is_deleted_live, is_deleted_marked, tuple_at-live,
}
use wslproject.Pages.TablePage.Mark.{Changes, resized-Changes}

-- A slot's tuple without the mark.
abbrev pub unmark : Option (Bool × List ℕ) → Option (Bool × List ℕ)
unmark none = none
unmark (some (marked, bytes)) = some (false, bytes)

rollback_in_use :
    (p : List ℕ) (rid : RowId)
    → IsValid p
    → rid.slot_num < count p
    → (p' : List ℕ) × (rollback_delete p rid ≡ ok p')
      × Changes p rid.slot_num (unmark (view p rid.slot_num)) p'
unfolding rollback_delete
rollback_in_use p rid v h =
    let i : ℕ = rid.slot_num in
    let s : ℕ = size p i in
    let counted = load_u32-eq p 20 (omega (arith, v.sized)) in
    let sized = load_u32-eq p (28 + 8 * i) (omega (arith, v.sized, v.layout)) in
    let inside = lt→ltb i (count p) h in
    elim (slot_state p i v h) [
      | empty_slot e seen ↦ (
        put p (28 + 8 * i) 0,
        rw
            (
              counted,
              inside,
              sized,
              e,
              store_u32-eq p (28 + 8 * i) 0 (omega (arith, v.sized, v.layout)),
            )
            refl,
        rw seen (resized-Changes p i 0 v h (λ u. absurd (u refl)) (omega arith) (omega arith)),
      )
      | marked_slot lo up seen ↦
          let n : ℕ = s % 2 ^ 31 in
          let flag : unset_deleted_flag s ≡ n = omega arith in
          (
            put p (28 + 8 * i) n,
            rw
                (
                  counted,
                  inside,
                  sized,
                  is_deleted_marked s lo up,
                  flag,
                  store_u32-eq p (28 + 8 * i) n (omega (arith, v.sized, v.layout)),
                )
                refl,
            subst (λ (t : Option (Bool × List ℕ)). Changes p i t (put p (28 + 8 * i) n))
                (tuple_at-live p (offset p i) n (omega arith) (omega arith) ∙ ap unmark (sym seen))
                (resized-Changes p i n v h (λ _ e. omega arith) (omega arith) (omega arith)),
          )
      | live_slot lo up seen ↦ (
        p,
        rw (counted, inside, sized, is_deleted_live s lo up) refl,
        (
          (λ j. elim (ℕ_discrete i j) [
            | yes e ↦ rw (← e, ==_refl i, seen) refl
            | no ne ↦ rw (==_ne i j ne) refl
          ]),
          v,
          (refl, refl, refl),
        ),
      )
    ]

-- RollbackDelete in a valid page takes the mark from the tuple of the slot, if it has one; the bytes stay,
-- no other slot changes, and the page is valid again. Behind the slots in use an assertion fails.
pub rollback_delete_lem :
    (p : List ℕ) (rid : RowId)
    → IsValid p
    → ((count p ≤ rid.slot_num) × (rollback_delete p rid ≡ err assertion))
      ⊎ ((p' : List ℕ) × (rid.slot_num < count p)
          × (rollback_delete p rid ≡ ok p')
          × Changes p rid.slot_num (unmark (view p rid.slot_num)) p')
unfolding rollback_delete
rollback_delete_lem p rid v = elim (Bool-cases (ltb rid.slot_num (count p))) [
  | inr beyond ↦
      inl (ltb→le _ _ beyond, rw (load_u32-eq p 20 (omega (arith, v.sized)), beyond) refl)
  | inl within ↦
      let h = ltb→lt _ _ within in
      let (p', done, changed) = rollback_in_use p rid v h in inr (p', h, done, changed)
]
