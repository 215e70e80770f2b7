-- ===== src/Pages/TablePage/Remove.antt =====
-- ApplyDelete of page/table_page.cpp.
use wslproject.Base.{
  ℕ, ◌+◌, ◌-◌, ◌*◌, ◌%◌, ◌^◌, ◌≤◌, ◌<◌, ◌≡◌, ◌≢◌, inl, inr, refl, sym, ◌∙◌, List, [], none, ok,
  ◌==◌, ltb, if◌then◌else◌, arith, ltb→lt, ltb→le, ==_refl, ==_ne, Bool-cases,
}
use native.Mathlib.Decide.{ℕ_discrete}
use wslproject.Record.Row.{RowId}
use wslproject.Pages.TablePage.{apply_delete}
use wslproject.Pages.TablePage.Layout.{
  free_space, count, offset, size, SameLinks, view, IsValid, view_in, view_beyond,
}
use wslproject.Pages.TablePage.Moving.{move_offsets_lem}
use wslproject.Pages.TablePage.Shift.{Shifted-IsValid, view-Shifted_other, view-Shifted_gone}
use wslproject.Pages.TablePage.Gap.{m5, length-m5, removed-Shifted, apply_delete-eq}

-- The page after ApplyDelete of the slot `k`: the slot has no tuple, and the slots are one fewer.
abbrev pub Removes : List ℕ → ℕ → List ℕ → Type 0
Removes p k p' =
    (count p' ≡ count p - 1)
    × ((j : ℕ) → j < count p - 1 → view p' j ≡ (if k == j then none else view p j))
    × ((j : ℕ) → count p - 1 ≤ j → view p' j ≡ none)
    × IsValid p'
    × SameLinks p p'

-- ApplyDelete of a slot with a tuple, marked or not, in a valid page. The tuple goes, the slots are one
-- fewer, every slot that is left has what it had, and the page is valid again. The last slot is
-- among those that are left only if it is the one that is removed: otherwise its tuple is lost.
pub apply_delete_lem :
    (p : List ℕ) (rid : RowId)
    → IsValid p
    → view p rid.slot_num ≢ none
    → (p' : List ℕ) × (apply_delete p rid ≡ ok p') × Removes p rid.slot_num p'
apply_delete_lem p rid v there =
    let k : ℕ = rid.slot_num in
    let s : ℕ = size p k % 2 ^ 31 in
    let l5 = length-m5 p k s v hk used refl in
    let (p', run, y) =
      move_offsets_lem (offset p k) s (m5 p k s v hk used refl) 0 (count p - 1)
        (omega (arith, l5, v.layout)) in
    let x = removed-Shifted p k s v hk used refl p' y in
    let room : 24 + 8 * count p + 0 ≤ free_space p + s = omega (arith, v.layout) in
    let most : count p - 1 ≤ count p = omega arith in
    (
      p',
      apply_delete-eq p k s v hk used refl rid.page_id p' run,
      (
        x.counted,
        (λ j h. elim (ℕ_discrete k j) [
          | yes e ↦
              rw (← e, ==_refl k)
                (view-Shifted_gone p p' k s 0 (count p - 1) [] v x hk used refl most room
                  (omega arith) (omega arith) refl)
          | no ne ↦ rw (==_ne k j ne) (
              view-Shifted_other p p' k s 0 (count p - 1) [] v x hk used refl most room
                (omega arith) j h (λ e. ne (sym e)))
        ]),
        (λ j h. view_beyond p' j (omega (arith, x.counted))),
        Shifted-IsValid p p' k s 0 (count p - 1) [] v x hk used refl most room (omega arith),
        x.links,
      ),
    )
  where
    hk : rid.slot_num < count p
    hk = elim (Bool-cases (ltb rid.slot_num (count p))) [
      | inl h ↦ ltb→lt _ _ h
      | inr h ↦ absurd (there (view_beyond p rid.slot_num (ltb→le _ _ h)))
    ]

    used : size p rid.slot_num ≢ 0
    used e = there (view_in p rid.slot_num hk ∙ (rw e refl))
