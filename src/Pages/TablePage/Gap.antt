-- ===== src/Pages/TablePage/Gap.antt =====
-- The steps of ApplyDelete of page/table_page.cpp.
use wslproject.Base.{
  ℕ, ◌+◌, ◌-◌, ◌*◌, ◌%◌, ◌^◌, ◌≤◌, ◌<◌, ◌≡◌, ◌≢◌, inl, inr, refl, sym, ◌∙◌, List, [], ok, ◌==◌,
  if◌then◌else◌, length, arith, lt→ltb, le→ltb, le→leb, ==_ne,
}
use wslproject.Base.Memory.{word, slice, splice, put, load_u32-eq, store_u32-eq, store-eq, load-eq}
use wslproject.Base.Blocks.{
  length-splice, word-splice, word-put, slice-splice, slice-move, length-slice,
}
use wslproject.Pages.TablePage.{is_deleted, unset_deleted_flag, move_offsets, apply_delete}
use wslproject.Pages.TablePage.Layout.{slice_header, free_space, count, offset, size, IsValid}
use wslproject.Pages.TablePage.Moving.{Moved, moved_to, close_gap-move_offsets}
use wslproject.Pages.TablePage.Shift.{Shifted}

-- The size of a tuple, marked or not.
unmarked_size :
    (x : ℕ) → x < 2 ^ 32 → (if is_deleted x then unset_deleted_flag x else x) ≡ x % 2 ^ 31
unmarked_size x h = ground arith

-- The pages between the steps of ApplyDelete, for the slot `k` with `s` bytes.
module _ (p : List ℕ) (k s : ℕ) (v : IsValid p) (hk : k < count p) (used : size p k ≢ 0)
    (whole : s ≡ size p k % 2 ^ 31) where
  abbrev f : ℕ
  f = free_space p

  abbrev o : ℕ
  o = offset p k

  abbrev m1 : List ℕ
  m1 = splice p (f + s) (slice p f (o - f))

  abbrev m2 : List ℕ
  m2 = put m1 16 (f + s)

  abbrev m3 : List ℕ
  m3 = put m2 (28 + 8 * k) 0

  abbrev m4 : List ℕ
  m4 = put m3 20 (count p - 1)

  abbrev pub m5 : List ℕ
  m5 = put m4 (24 + 8 * k) 0

  tuple_in_page : (f ≤ o) × (0 < s) × (o + s ≤ 4096)
  tuple_in_page = let w = v.layout.within k hk used in (w.0, omega (arith, w), omega (arith, w))

  length-tuples : length (slice p f (o - f)) ≡ o - f
  length-tuples = length-slice p f (o - f) (omega (arith, v.sized, tuple_in_page))

  length-m1 : length m1 ≡ 4096
  length-m1 = length-splice p (f + s) _ ∙ v.sized

  length-m2 : length m2 ≡ 4096
  length-m2 = length-splice m1 16 _ ∙ length-m1

  length-m3 : length m3 ≡ 4096
  length-m3 = length-splice m2 (28 + 8 * k) _ ∙ length-m2

  length-m4 : length m4 ≡ 4096
  length-m4 = length-splice m3 20 _ ∙ length-m3

  pub length-m5 : length m5 ≡ 4096
  length-m5 = length-splice m4 (24 + 8 * k) _ ∙ length-m4

  -- The words of the header and of the slots, before the loop.
  word-m3 :
      (q : ℕ)
      → q % 4 ≡ 0
      → q + 4 ≤ 24 + 8 * count p
      → word m3 q ≡ (if 28 + 8 * k == q then 0 else if 16 == q then f + s else word p q)
  word-m3 q aligned h = rw (
    word-put m2 (28 + 8 * k) 0 q (omega arith) (omega (arith, length-m2, v.layout)) (omega arith),
    word-put m1 16 (f + s) q (omega arith) (omega (arith, length-m1))
        (omega (arith, v.layout.ends, tuple_in_page)),
    word-splice p (f + s) (slice p f (o - f)) q
        (omega (arith, v.sized, tuple_in_page, length-tuples)) (inl (omega (arith, v.layout.room))),
  )

  word-m5 :
      (q : ℕ)
      → q % 4 ≡ 0
      → q + 4 ≤ 24 + 8 * count p
      → word m5 q ≡ (if 24 + 8 * k == q then 0 else if 20 == q then count p - 1 else word m3 q)
  word-m5 q aligned h = rw (
    word-put m4 (24 + 8 * k) 0 q (omega arith) (omega (arith, length-m4, v.layout)) (omega arith),
    word-put m3 20 (count p - 1) q (omega arith) (omega (arith, length-m3))
        (omega (arith, v.layout)),
  )

  slice-m5 : (q len : ℕ) → 24 + 8 * count p ≤ q → q + len ≤ 4096 → slice m5 q len ≡ slice m1 q len
  slice-m5 q len lo up =
      slice_header m4 (24 + 8 * k) 0 q len length-m4 (omega arith) up
      ∙ slice_header m3 20 (count p - 1) q len length-m3 (omega arith) up
      ∙ slice_header m2 (28 + 8 * k) 0 q len length-m2 (omega arith) up
      ∙ slice_header m1 16 (f + s) q len length-m1 (omega arith) up

  offset-m5 : (j : ℕ) → j < count p → j ≢ k → offset m5 j ≡ offset p j
  offset-m5 j h ne =
      word-m5 (24 + 8 * j) (omega arith) (omega arith)
      ∙ (rw (word-m3 (24 + 8 * j) (omega arith) (omega arith)) (ground arith))

  size-m5 : (j : ℕ) → j < count p → size m5 j ≡ (if k == j then 0 else size p j)
  size-m5 j h =
      word-m5 (28 + 8 * j) (omega arith) (omega arith)
      ∙ (rw (word-m3 (28 + 8 * j) (omega arith) (omega arith)) (ground arith))

  module _ (p' : List ℕ) (y : Moved o s m5 p' 0 (count p - 1)) where
    header_word :
        (q : ℕ)
        → q % 4 ≡ 0
        → q < 24
        → word p' q ≡ (if 20 == q then count p - 1 else if 16 == q then f + s else word p q)
    header_word q aligned h =
        y.others q aligned (inr (inl (omega arith)))
        ∙ (word-m5 q aligned (omega arith)
            ∙ (rw
                (
                  word-m3 q aligned (omega arith),
                  ==_ne (24 + 8 * k) q (λ e. omega arith),
                  ==_ne (28 + 8 * k) q (λ e. omega arith),
                )
                refl))

    offset_after :
        (j : ℕ) → j < count p - 1 → j ≢ k → offset p' j ≡ moved_to o s (offset p j) (size p j)
    offset_after j h ne =
        y.offsets j (omega arith) (omega arith)
        ∙ rw (offset-m5 j (omega arith) ne, size-m5 j (omega arith), ==_ne k j (λ e. ne (sym e)))
            refl

    pub removed-Shifted : Shifted p p' k s 0 (count p - 1) []
    removed-Shifted = record {
      sized = y.sized ∙ length-m5;
      links = (
        header_word 0 refl (omega arith),
        header_word 8 refl (omega arith),
        header_word 12 refl (omega arith),
      );
      space = omega (arith, header_word 16 refl (omega arith));
      counted = header_word 20 refl (omega arith);
      sizes =
          λ j h. y.others (28 + 8 * j) (omega arith) (inl (omega arith)) ∙ size-m5 j (omega arith);
      lower = λ j h ne u below.
          let w = v.layout.within j (omega arith) u in
          let there : offset p' j ≡ (offset p j + s) % 2 ^ 32 =
            offset_after j h ne
            ∙ rw (lt→ltb 0 (size p j) (omega arith), lt→ltb (offset p j) o below) refl in
          omega (arith, there, w, tuple_in_page);
      upper = λ j h ne u above.
          offset_after j h ne
          ∙ rw (le→ltb (offset p j) o (omega (arith, tuple_in_page))) (ground arith);
      own = λ pos h. absurd (pos refl);
      moved = λ q q' len lo up at.
          y.tuples q' len (omega (arith, v.layout)) (omega (arith, length-m5, tuple_in_page))
          ∙ slice-m5 q' len (omega (arith, v.layout)) (omega (arith, tuple_in_page))
          ∙ slice-move p (f + s) f (o - f) q q' len (omega (arith, v.sized, tuple_in_page))
              (omega (arith, v.sized, tuple_in_page)) lo (omega arith) (omega arith);
      stayed = λ q len lo up.
          y.tuples q len (omega (arith, v.layout, tuple_in_page)) (omega (arith, length-m5))
          ∙ slice-m5 q len (omega (arith, v.layout, tuple_in_page)) up
          ∙ slice-splice p (f + s) (slice p f (o - f)) q len
              (omega (arith, v.sized, tuple_in_page, length-tuples)) (omega (arith, v.sized))
              (inr (omega (arith, tuple_in_page, length-tuples)));
    }

  pub apply_delete-eq :
      (page_id : ℕ) (p' : List ℕ)
      → move_offsets m5 o s 0 (count p - 1) ≡ ok p'
      → apply_delete p (record { page_id = page_id; slot_num = k }) ≡ ok p'
  unfolding apply_delete
  apply_delete-eq page_id p' run =
      let w = tuple_in_page in
      let counted : word m3 20 ≡ count p =
        word-m3 20 refl (omega arith) ∙ rw (==_ne (28 + 8 * k) 20 (λ e. omega arith)) refl in
      let new_count : word m5 20 ≡ count p - 1 =
        word-m5 20 refl (omega arith) ∙ rw (==_ne (24 + 8 * k) 20 (λ e. omega arith)) refl in
      let less : (count p + 2 ^ 32 - 1) % 2 ^ 32 ≡ count p - 1 = omega (arith, v.layout) in
      let space : (f + s) % 2 ^ 32 ≡ f + s = omega (arith, w) in
      rw
        (
          load_u32-eq p 20 (omega (arith, v.sized)),
          lt→ltb k (count p) hk,
          load_u32-eq p (24 + 8 * k) (omega (arith, v.sized, v.layout)),
          load_u32-eq p (28 + 8 * k) (omega (arith, v.sized, v.layout)),
          unmarked,
          load_u32-eq p 16 (omega (arith, v.sized)),
          le→leb f o w.0,
          load-eq p f (o - f) (omega (arith, v.sized, w)),
          store-eq p (f + s) (slice p f (o - f)) (omega (arith, v.sized, w, length-tuples)),
          space,
          store_u32-eq m1 16 (f + s) (omega (arith, length-m1)),
          store_u32-eq m2 (28 + 8 * k) 0 (omega (arith, length-m2, v.layout)),
          load_u32-eq m3 20 (omega (arith, length-m3)),
          counted,
          less,
          store_u32-eq m3 20 (count p - 1) (omega (arith, length-m3)),
          store_u32-eq m4 (24 + 8 * k) 0 (omega (arith, length-m4, v.layout)),
          load_u32-eq m5 20 (omega (arith, length-m5)),
          new_count,
          close_gap-move_offsets o s m5 0 (count p - 1) (omega (arith, length-m5, v.layout)),
        )
        run
    where
      unmarked : (if is_deleted (size p k) then unset_deleted_flag (size p k) else size p k) ≡ s
      unmarked = unmarked_size (size p k) (v.layout.small k hk) ∙ sym whole
