-- ===== src/Pages/TablePage/Placed.antt =====
-- A table page after a tuple is placed in it, by InsertTuple of page/table_page.cpp.
use wslproject.Base.{
  ℕ, ◌+◌, ◌*◌, ◌%◌, ◌^◌, ◌≤◌, ◌<◌, ◌≡◌, ◌≢◌, ◌⊎◌, inl, inr, refl, sym, ap, ◌∙◌, false, List, none,
  some, ◌==◌, ltb, if◌then◌else◌, arith, ltb→lt, ==_refl, ==_ne, Bool-cases, ltb→le,
}
use native.Mathlib.Decide.{ℕ_discrete}
use wslproject.Base.Memory.{slice}
use wslproject.Pages.TablePage.Layout.{
  free_space, count, offset, size, tuple_at, view, IsValid, view_in, view_beyond, view_kept,
  tuple_at-live,
}
use wslproject.Pages.TablePage.Placement.{Placed}

-- What holds when a tuple is placed in a valid page, below the others and in an empty slot or behind
-- the slots in use.
module _ (p p' : List ℕ) (i a n : ℕ) (bs : List ℕ) (c' : ℕ) (v : IsValid p)
    (x : Placed p p' i a n bs c') (below : a + n ≡ free_space p) (room : 32 + 8 * count p ≤ a)
    (hi : i ≤ count p) (free : i < count p → size p i ≡ 0)
    (grown : c' ≡ (if i == count p then count p + 1 else count p)) (some_bytes : 0 < n)
    (few : n < 2 ^ 31) where
  in_use : (j : ℕ) → j < c' → (j ≡ i) ⊎ ((j ≢ i) × (j < count p))
  in_use j h = elim (ℕ_discrete j i) [ yes e ↦ inl e | no ne ↦ inr (ne, ground arith) ]

  slot_of_tuple : (offset p' i ≡ a) × (size p' i ≡ n)
  slot_of_tuple = (
    x.offsets i (omega arith) ∙ rw (==_refl i) refl,
    x.sizes i (omega arith) ∙ rw (==_refl i) refl,
  )

  other_slot : (j : ℕ) → j < count p → j ≢ i → (offset p' j ≡ offset p j) × (size p' j ≡ size p j)
  other_slot j h ne =
      (x.offsets j (omega arith) ∙ ground arith, x.sizes j (omega arith) ∙ ground arith)

  -- A tuple that was there before lies above the new one.
  above : (j : ℕ) → j < count p → j ≢ i → size p' j ≢ 0 → a + n ≤ offset p' j
  above j h ne used =
      let same = other_slot j h ne in
      omega (arith, same.0, v.layout.within j h (λ e. used (same.1 ∙ e)))

  Placed_apart :
      (j k : ℕ)
      → j < c'
      → k < c'
      → j ≢ k
      → size p' j ≢ 0
      → size p' k ≢ 0
      → (offset p' j + size p' j % 2 ^ 31 ≤ offset p' k)
        ⊎ (offset p' k + size p' k % 2 ^ 31 ≤ offset p' j)
  Placed_apart j k hj hk ne uj uk = elim (in_use j hj) [
    | inl e ↦ elim (in_use k hk) [
      | inl e' ↦ absurd (ne (e ∙ sym e'))
      | inr (other, old) ↦ inl (rw e (omega (arith, slot_of_tuple, above k old other uk)))
    ]
    | inr (other, old) ↦ elim (in_use k hk) [
      | inl e' ↦ inr (rw e' (omega (arith, slot_of_tuple, above j old other uj)))
      | inr (other', old') ↦
          let s = other_slot j old other in
          let t = other_slot k old' other' in
          rw (s.0, s.1, t.0, t.1)
            (v.layout.apart j k old old' ne (λ z. uj (s.1 ∙ z)) (λ z. uk (t.1 ∙ z)))
    ]
  ]

  pub Placed-IsValid : IsValid p'
  Placed-IsValid = record {
    sized = x.sized;
    layout = record {
      room = omega (arith, x.space, x.counted, grown_le);
      ends = omega (arith, x.space, v.layout.ends);
      small = λ j h. elim (in_use j (omega (arith, x.counted))) [
        | inl e ↦ rw e (omega (arith, slot_of_tuple.1))
        | inr (ne, old) ↦ omega (arith, (other_slot j old ne).1, v.layout.small j old)
      ];
      within = λ j h used. elim (in_use j (omega (arith, x.counted))) [
        | inl e ↦ rw e (omega (arith, slot_of_tuple, x.space, v.layout.ends))
        | inr (ne, old) ↦
            let same = other_slot j old ne in
            let before = v.layout.within j old (λ e. used (same.1 ∙ e)) in
            (
              omega (arith, same.0, before, x.space),
              omega (arith, same.1, before),
              omega (arith, same, before),
            )
      ];
      apart = λ j k hj hk ne uj uk.
          Placed_apart j k (omega (arith, x.counted)) (omega (arith, x.counted)) ne uj uk;
    };
  }
    where
      grown_le : c' ≤ count p + 1
      grown_le = ground arith

  -- The slot was empty and has the tuple; every other slot has what it had.
  pub view-Placed_before : view p i ≡ none
  view-Placed_before = ground (arith, free)

  view-Placed_self : view p' i ≡ some (false, bs)
  view-Placed_self =
      view_in p' i (omega (arith, x.counted, grown_lt))
      ∙ ap (tuple_at p' (offset p' i)) slot_of_tuple.1
      ∙ tuple_at-live p' (offset p' i) n some_bytes few
      ∙ ap (λ (t : List ℕ). some (false, t)) (ap (λ (o : ℕ). slice p' o n) slot_of_tuple.0 ∙ x.own)
    where
      grown_lt : i < c'
      grown_lt = ground arith

  view-Placed_other : (j : ℕ) → i ≢ j → view p' j ≡ view p j
  view-Placed_other j ne = elim (Bool-cases (ltb j (count p))) [
    | inl old ↦
        let h = ltb→lt j (count p) old in
        let same = other_slot j h (λ e. ne (sym e)) in
        view_kept p p' j h (omega (arith, x.counted, grown_le)) same.1 (λ used.
          let w = v.layout.within j h used in
          rw same.0
            (x.tuples (offset p j) (size p j % 2 ^ 31) (omega (arith, w)) (omega (arith, w))))
    | inr beyond ↦
        let h = ltb→le j (count p) beyond in
        view_beyond p' j (omega (arith, x.counted, grown_far h)) ∙ sym (view_beyond p j h)
  ]
    where
      grown_le : count p ≤ c'
      grown_le = ground arith

      grown_far : count p ≤ j → c' ≤ j
      grown_far h = ground arith

  pub view-Placed : (j : ℕ) → view p' j ≡ (if i == j then some (false, bs) else view p j)
  view-Placed j = elim (ℕ_discrete i j) [
    | yes e ↦ rw (← e, ==_refl i) view-Placed_self
    | no ne ↦ rw (==_ne i j ne) (view-Placed_other j ne)
  ]
