-- ===== src/Pages/TablePage/Moving.antt =====
-- The loops of UpdateTuple and ApplyDelete over the slots (page/table_page.cpp).
use wslproject.Base.{
  ℕ, zero, suc, ◌+◌, ◌*◌, ◌%◌, ◌^◌, ◌≤◌, ◌<◌, ◌≡◌, ◌⊎◌, inl, inr, refl, ◌∙◌, not, ◌&&◌, List, ok,
  ◌==◌, ltb, if◌then◌else◌, length, arith, ==_refl, Bool-cases,
}
use native.Mathlib.Decide.{ℕ_discrete}
use wslproject.Base.Bytes.{length-write_u32}
use wslproject.Base.Memory.{word, slice, put, load_u32-eq, store_u32-eq}
use wslproject.Base.Blocks.{length-splice, word-put, slice-splice}
use wslproject.Pages.TablePage.{move_offsets, close_gap}
use wslproject.Pages.TablePage.Layout.{offset, size}

-- Where a tuple of `s` bytes at `o` stands after the loop.
abbrev pub moved_to : ℕ → ℕ → ℕ → ℕ → ℕ
moved_to bound moved o s = if ltb 0 s && ltb o bound then (o + moved) % 2 ^ 32 else o

-- The offsets of the slots from `lo` on, `k` of them, are changed, and nothing else.
pub record Moved (bound moved : ℕ) (p p' : List ℕ) (lo k : ℕ) : Type 0 where
  pub sized : length p' ≡ length p
  pub others :
      (q : ℕ)
      → q % 4 ≡ 0
      → (q % 8 ≡ 4) ⊎ (q < 24 + 8 * lo) ⊎ (24 + 8 * (lo + k) ≤ q)
      → word p' q ≡ word p q
  pub offsets :
      (j : ℕ) → lo ≤ j → j < lo + k → offset p' j ≡ moved_to bound moved (offset p j) (size p j)
  pub tuples : (o n : ℕ) → 24 + 8 * (lo + k) ≤ o → o + n ≤ length p → slice p' o n ≡ slice p o n

module _ (bound moved : ℕ) where
  moved_one : List ℕ → ℕ → List ℕ
  moved_one p i =
      if ltb 0 (size p i) && ltb (offset p i) bound
      then put p (24 + 8 * i) ((offset p i + moved) % 2 ^ 32)
      else p

  moved_one-Moved :
      (p : List ℕ) (i : ℕ) → 32 + 8 * i ≤ length p → Moved bound moved p (moved_one p i) i 1
  unfolding moved_one
  moved_one-Moved p i h = elim (Bool-cases (ltb 0 (size p i) && ltb (offset p i) bound)) [
    | inl e ↦ rw e (record {
      sized = length-splice p (24 + 8 * i) _;
      others = λ q aligned apart.
          word-put p (24 + 8 * i) _ q (omega arith) (omega arith) (omega arith) ∙ ground arith;
      offsets = λ j lo up.
          let same : i ≡ j = omega arith in
          rw
            (
              ← same,
              word-put p (24 + 8 * i) t (24 + 8 * i) refl (omega arith) (omega arith),
              ==_refl (24 + 8 * i),
              e,
            )
            refl;
      tuples = λ o n lo up.
          slice-splice p (24 + 8 * i) _ o n (omega (arith, length-write_u32 t)) up
            (inr (omega (arith, length-write_u32 t)));
    })
    | inr e ↦ rw e (record {
      sized = refl;
      others = λ q aligned apart. refl;
      offsets = λ j lo up. let same : i ≡ j = omega arith in rw (← same, e) refl;
      tuples = λ o n lo up. refl;
    })
  ]
    where
      t : ℕ
      t = (offset p i + moved) % 2 ^ 32

  Moved-then :
      (p next p' : List ℕ) (i k : ℕ)
      → Moved bound moved p next i 1
      → Moved bound moved next p' (i + 1) k
      → Moved bound moved p p' i (suc k)
  Moved-then p next p' i k x y = record {
    sized = y.sized ∙ x.sized;
    others =
        λ q aligned apart. y.others q aligned (ground arith) ∙ x.others q aligned (ground arith);
    offsets = λ j lo up. elim (ℕ_discrete i j) [
      | yes e ↦
          y.others (24 + 8 * j) (omega arith) (inr (inl (omega arith)))
          ∙ x.offsets j (omega arith) (omega arith)
      | no ne ↦
          y.offsets j (omega arith) (omega arith)
          ∙ rw
              (
                x.others (24 + 8 * j) (omega arith) (inr (inr (omega arith))),
                x.others (28 + 8 * j) (omega arith) (inl (omega arith)),
              )
              refl
    ];
    tuples = λ o n lo up.
        y.tuples o n (omega arith) (omega (arith, x.sized)) ∙ x.tuples o n (omega arith) up;
  }

  pub move_offsets_lem :
      (p : List ℕ) (i k : ℕ)
      → 24 + 8 * (i + k) ≤ length p
      → (p' : List ℕ) × (move_offsets p bound moved i k ≡ ok p') × Moved bound moved p p' i k
  unfolding move_offsets moved_one
  move_offsets_lem p i zero h = (
    p,
    refl,
    record {
      sized = refl;
      others = λ q aligned apart. refl;
      offsets = λ j lo up. absurd (omega arith);
      tuples = λ o n lo up. refl;
    },
  )
  move_offsets_lem p i (suc k) h =
      let x = moved_one-Moved p i (omega arith) in
      let (p', run, y) = move_offsets_lem (moved_one p i) (i + 1) k (omega (arith, x.sized)) in
      (
        p',
        rw
            (
              load_u32-eq p (24 + 8 * i) (omega arith),
              load_u32-eq p (28 + 8 * i) (omega arith),
              store_u32-eq p (24 + 8 * i) ((offset p i + moved) % 2 ^ 32) (omega arith),
            )
            (elim (Bool-cases (ltb 0 (size p i) && ltb (offset p i) bound)) [
              | inl e ↦ rw e (rw e at run)
              | inr e ↦ rw e (rw e at run)
            ]),
        Moved-then p (moved_one p i) p' i k x y,
      )

  same_test : (s : ℕ) → not (s == 0) ≡ ltb 0 s
  same_test s = ground arith

  -- The loop of ApplyDelete is that of UpdateTuple.
  pub close_gap-move_offsets :
      (p : List ℕ) (i k : ℕ)
      → 24 + 8 * (i + k) ≤ length p
      → close_gap p bound moved i k ≡ move_offsets p bound moved i k
  unfolding close_gap move_offsets
  close_gap-move_offsets p i zero h = refl
  close_gap-move_offsets p i (suc k) h =
      let t : ℕ = (offset p i + moved) % 2 ^ 32 in
      rw
        (
          load_u32-eq p (24 + 8 * i) (omega arith),
          load_u32-eq p (28 + 8 * i) (omega arith),
          store_u32-eq p (24 + 8 * i) t (omega arith),
          same_test (size p i),
        )
        (elim (Bool-cases (ltb 0 (size p i) && ltb (offset p i) bound)) [
          | inl e ↦ rw e (
              close_gap-move_offsets (put p (24 + 8 * i) t) (i + 1) k
                (omega (arith, length-splice p (24 + 8 * i))))
          | inr e ↦ rw e (close_gap-move_offsets p (i + 1) k (omega arith))
        ])
