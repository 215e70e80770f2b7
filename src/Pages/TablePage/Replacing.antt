-- ===== src/Pages/TablePage/Replacing.antt =====
-- What UpdateTuple of page/table_page.cpp writes into the page, and what the page is then.
use wslproject.Base.{
  ℕ, ◌+◌, ◌-◌, ◌*◌, ◌%◌, ◌^◌, ◌≤◌, ◌<◌, ◌≡◌, ◌≢◌, ◌⊎◌, inl, inr, refl, sym, ap, ◌∙◌, List, ◌==◌,
  if◌then◌else◌, length, arith, lt→ltb, le→ltb, ==_refl, ==_ne,
}
use wslproject.Base.Memory.{word, slice, splice, put}
use wslproject.Base.Blocks.{
  length-splice, word-splice, word-put, slice-splice, slice-splice_self, slice-move, length-slice,
}
use wslproject.Pages.TablePage.Layout.{slice_header, free_space, count, offset, size, IsValid}
use wslproject.Pages.TablePage.Moving.{Moved, moved_to}
use wslproject.Pages.TablePage.Shift.{Shifted}

-- The pages between the steps of UpdateTuple, for the slot `k` with `s` bytes at `o`, and the new tuple
-- `bs` of `n` bytes.
abbrev pub tuples_moved : List ℕ → ℕ → ℕ → ℕ → ℕ → List ℕ
tuples_moved p f o s n = splice p (f + s - n) (slice p f (o - f))

abbrev pub tuple_written : List ℕ → ℕ → ℕ → ℕ → ℕ → List ℕ → List ℕ
tuple_written p f o s n bs = splice (put (tuples_moved p f o s n) 16 (f + s - n)) (o + s - n) bs

abbrev pub size_written : List ℕ → ℕ → ℕ → ℕ → ℕ → ℕ → List ℕ → List ℕ
size_written p k f o s n bs = put (tuple_written p f o s n bs) (28 + 8 * k) n

module _ (p : List ℕ) (k s n : ℕ) (bs : List ℕ) (v : IsValid p) (hk : k < count p) (pos : 0 < s)
    (sized : size p k ≡ s) (live : s < 2 ^ 31) (some_bytes : 0 < n) (long : length bs ≡ n)
    (room : 24 + 8 * count p + n ≤ free_space p + s) where
  abbrev pub f : ℕ
  f = free_space p

  abbrev pub o : ℕ
  o = offset p k

  abbrev pub m1 : List ℕ
  m1 = tuples_moved p f o s n

  abbrev pub m2 : List ℕ
  m2 = put m1 16 (f + s - n)

  abbrev pub m3 : List ℕ
  m3 = tuple_written p f o s n bs

  abbrev pub m4 : List ℕ
  m4 = size_written p k f o s n bs

  pub tuple_in_page : (f ≤ o) × (o + s ≤ 4096)
  tuple_in_page =
      let w = v.layout.within k hk (λ e. omega arith) in
      let whole : size p k % 2 ^ 31 ≡ s = omega arith in (w.0, omega (arith, w, whole))

  pub length-tuples : length (slice p f (o - f)) ≡ o - f
  length-tuples = length-slice p f (o - f) (omega (arith, v.sized, tuple_in_page))

  pub length-m1 : length m1 ≡ 4096
  length-m1 = length-splice p (f + s - n) _ ∙ v.sized

  pub length-m2 : length m2 ≡ 4096
  length-m2 = length-splice m1 16 _ ∙ length-m1

  pub length-m3 : length m3 ≡ 4096
  length-m3 = length-splice m2 (o + s - n) bs ∙ length-m2

  pub length-m4 : length m4 ≡ 4096
  length-m4 = length-splice m3 (28 + 8 * k) _ ∙ length-m3

  word-m1 : (q : ℕ) → q + 4 ≤ 24 + 8 * count p → word m1 q ≡ word p q
  word-m1 q h =
      word-splice p (f + s - n) _ q (omega (arith, v.sized, tuple_in_page, length-tuples))
        (inl (omega arith))

  -- The words of the header and of the slots, before the loop.
  pub word-m4 :
      (q : ℕ)
      → q % 4 ≡ 0
      → q + 4 ≤ 24 + 8 * count p
      → word m4 q ≡ (if 28 + 8 * k == q then n else if 16 == q then f + s - n else word p q)
  word-m4 q aligned h = rw (
    word-put m3 (28 + 8 * k) n q (omega arith) (omega (arith, length-m3, v.layout))
        (omega (arith, v.layout.ends)),
    word-splice m2 (o + s - n) bs q (omega (arith, length-m2, tuple_in_page))
        (inl (omega (arith, tuple_in_page))),
    word-put m1 16 (f + s - n) q (omega arith) (omega (arith, length-m1))
        (omega (arith, v.layout.ends)),
    word-m1 q h,
  )

  slice-m4 :
      (q len : ℕ)
      → f + s - n ≤ q
      → q + len ≤ 4096
      → (q + len ≤ o + s - n) ⊎ (o + s ≤ q)
      → slice m4 q len ≡ slice m1 q len
  slice-m4 q len lo up apart =
      slice_header m3 (28 + 8 * k) n q len length-m3 (omega arith) up
      ∙ slice-splice m2 (o + s - n) bs q len (omega (arith, length-m2, tuple_in_page))
          (omega (arith, length-m2)) (written_apart apart)
      ∙ slice_header m1 16 (f + s - n) q len length-m1 (omega arith) up
    where
      written_apart :
          (q + len ≤ o + s - n) ⊎ (o + s ≤ q) → (q + len ≤ o + s - n) ⊎ (o + s - n + length bs ≤ q)
      written_apart (inl h) = inl h
      written_apart (inr h) = inr (omega (arith, tuple_in_page))

  offset-m4 : (j : ℕ) → j < count p → offset m4 j ≡ offset p j
  offset-m4 j h = word-m4 (24 + 8 * j) (omega arith) (omega arith) ∙ ground arith

  size-m4 : (j : ℕ) → j < count p → size m4 j ≡ (if k == j then n else size p j)
  size-m4 j h = word-m4 (28 + 8 * j) (omega arith) (omega arith) ∙ ground arith

  slice-m4_own : slice m4 (o + s - n) n ≡ bs
  slice-m4_own =
      slice_header m3 (28 + 8 * k) n (o + s - n) n length-m3 (omega (arith, tuple_in_page))
        (omega (arith, tuple_in_page))
      ∙ ap (slice m3 (o + s - n)) (sym long)
      ∙ slice-splice_self m2 (o + s - n) bs (omega (arith, length-m2, tuple_in_page))

  module _ (p' : List ℕ) (y : Moved (o + s) (s + 2 ^ 32 - n) m4 p' 0 (count p)) where
    header_word :
        (q : ℕ) → q % 4 ≡ 0 → q < 24 → word p' q ≡ (if 16 == q then f + s - n else word p q)
    header_word q aligned h =
        y.others q aligned (inr (inl (omega arith)))
        ∙ (word-m4 q aligned (omega arith) ∙ rw (==_ne (28 + 8 * k) q (λ e. omega arith)) refl)

    -- Where the loop leaves a slot whose tuple, of `t` bytes, stood at `a`.
    offset_after :
        (j a t : ℕ)
        → j < count p
        → offset m4 j ≡ a
        → size m4 j ≡ t
        → offset p' j ≡ moved_to (o + s) (s + 2 ^ 32 - n) a t
    offset_after j a t h ea et = y.offsets j (omega arith) (omega arith) ∙ rw (ea, et) refl

    moves_down :
        (a t : ℕ) → 0 < t → f ≤ a → a < o + s → moved_to (o + s) (s + 2 ^ 32 - n) a t + n ≡ a + s
    moves_down a t ht lo up =
        rw (lt→ltb 0 t ht, lt→ltb a (o + s) up) (omega (arith, v.layout.ends, tuple_in_page))

    other_size : (j : ℕ) → j < count p → j ≢ k → size m4 j ≡ size p j
    other_size j h ne = size-m4 j h ∙ rw (==_ne k j (λ e. ne (sym e))) refl

    pub updated-Shifted : Shifted p p' k s n (count p) bs
    updated-Shifted = record {
      sized = y.sized ∙ length-m4;
      links = (
        header_word 0 refl (omega arith),
        header_word 8 refl (omega arith),
        header_word 12 refl (omega arith),
      );
      space = omega (arith, header_word 16 refl (omega arith));
      counted = header_word 20 refl (omega arith);
      sizes = λ j h. y.others (28 + 8 * j) (omega arith) (inl (omega arith)) ∙ size-m4 j h;
      lower = λ j h ne u below.
          let w = v.layout.within j h u in
          ap (λ (t : ℕ). t + n)
            (offset_after j (offset p j) (size p j) h (offset-m4 j h) (other_size j h ne))
          ∙ moves_down (offset p j) (size p j) (omega arith) w.0 (omega arith);
      upper = λ j h ne u above.
          offset_after j (offset p j) (size p j) h (offset-m4 j h) (other_size j h ne)
          ∙ rw (le→ltb (offset p j) (o + s) above) (ground arith);
      own = λ _ h. (own_offset, own_bytes);
      moved = λ q q' len lo up at.
          y.tuples q' len (omega arith) (omega (arith, length-m4, tuple_in_page))
          ∙ slice-m4 q' len (omega arith) (omega (arith, tuple_in_page)) (inl (omega arith))
          ∙ slice-move p (f + s - n) f (o - f) q q' len (omega (arith, v.sized, tuple_in_page))
              (omega (arith, v.sized, tuple_in_page)) lo (omega arith) (omega arith);
      stayed = λ q len lo up.
          y.tuples q len (omega (arith, tuple_in_page)) (omega (arith, length-m4))
          ∙ slice-m4 q len (omega (arith, tuple_in_page)) up (inr lo)
          ∙ slice-splice p (f + s - n) _ q len
              (omega (arith, v.sized, tuple_in_page, length-tuples)) (omega (arith, v.sized))
              (inr (omega (arith, tuple_in_page, length-tuples)));
    }
      where
        own_size : size m4 k ≡ n
        own_size = size-m4 k hk ∙ rw (==_refl k) refl

        own_offset : offset p' k + n ≡ o + s
        own_offset =
            ap (λ (t : ℕ). t + n) (offset_after k o n hk (offset-m4 k hk) own_size)
            ∙ moves_down o n some_bytes (omega (arith, tuple_in_page)) (omega arith)

        own_bytes : slice p' (offset p' k) n ≡ bs
        own_bytes =
            let at : offset p' k ≡ o + s - n = omega (arith, own_offset) in
            rw at (
              y.tuples (o + s - n) n (omega (arith, tuple_in_page))
                (omega (arith, length-m4, tuple_in_page))
              ∙ slice-m4_own)
