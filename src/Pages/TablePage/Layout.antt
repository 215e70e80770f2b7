-- ===== src/Pages/TablePage/Layout.antt =====
-- The layout of a table page (include/page/table_page.h), and what callers see of it.
use wslproject.Base.{
  Bool-cases, inl, inr, ltb→lt, ltb→le, ℕ, ◌+◌, ◌*◌, ◌%◌, ◌/◌, ◌^◌, refl, sym, ap, ◌∙◌, lt→ltb,
  le→ltb, ==_ne, ◌≤◌, ◌<◌, ◌≡◌, ◌≢◌, ◌⊎◌, Bool, true, false, not, List, Option, none, some, ◌==◌,
  ltb, if◌then◌else◌, length, arith,
}
use native.Mathlib.Decide.{ℕ_discrete}
use wslproject.Base.Bytes.{length-write_u32}
use wslproject.Base.Memory.{word, slice, put}
use wslproject.Base.Blocks.{slice-splice}
use wslproject.Pages.TablePage.{delete_bit, is_deleted}

-- The words of the header and of the slots.
abbrev pub free_space : List ℕ → ℕ
free_space p = word p 16

abbrev pub count : List ℕ → ℕ
count p = word p 20

abbrev pub offset : List ℕ → ℕ → ℕ
offset p i = word p (24 + 8 * i)

abbrev pub size : List ℕ → ℕ → ℕ
size p i = word p (28 + 8 * i)

-- The page's own id and its neighbours are as before.
abbrev pub SameLinks : List ℕ → List ℕ → Type 0
SameLinks p p' = (word p' 0 ≡ word p 0) × (word p' 8 ≡ word p 8) × (word p' 12 ≡ word p 12)

-- What a slot stands for: no tuple, or the bytes of one and whether it is marked as deleted.
abbrev pub tuple_at : List ℕ → ℕ → ℕ → Option (Bool × List ℕ)
tuple_at p o s = if s == 0 then none else some (not (delete_bit s == 0), slice p o (s % 2 ^ 31))

-- The page as callers see it: the tuple of each slot.
abbrev pub view : List ℕ → ℕ → Option (Bool × List ℕ)
view p i = if ltb i (count p) then tuple_at p (offset p i) (size p i) else none

-- `c` slots that start behind the header, and the tuples of those whose size is not zero, which lie
-- apart from each other between the free space and the end of the page.
pub record Layout (c space : ℕ) (offset_of size_of : ℕ → ℕ) : Type 0 where
  pub room : 24 + 8 * c ≤ space
  pub ends : space ≤ 4096
  pub small : (i : ℕ) → i < c → size_of i < 2 ^ 32
  pub within :
      (i : ℕ)
      → i < c
      → size_of i ≢ 0
      → (space ≤ offset_of i) × (0 < size_of i % 2 ^ 31) × (offset_of i + size_of i % 2 ^ 31 ≤ 4096)
  pub apart :
      (i j : ℕ)
      → i < c
      → j < c
      → i ≢ j
      → size_of i ≢ 0
      → size_of j ≢ 0
      → (offset_of i + size_of i % 2 ^ 31 ≤ offset_of j)
        ⊎ (offset_of j + size_of j % 2 ^ 31 ≤ offset_of i)

pub record IsValid (p : List ℕ) : Type 0 where
  pub sized : length p ≡ 4096
  pub layout : Layout (count p) (free_space p) (offset p) (size p)

-- A part of the page behind a word of the header or of a slot.
pub slice_header :
    (m : List ℕ) (h x q len : ℕ)
    → length m ≡ 4096
    → h + 4 ≤ q
    → q + len ≤ 4096
    → slice (put m h x) q len ≡ slice m q len
slice_header m h x q len sm lo up =
    slice-splice m h _ q len (omega (arith, sm, length-write_u32 x)) (omega (arith, sm))
      (inr (omega (arith, length-write_u32 x)))

pub view_in : (p : List ℕ) (i : ℕ) → i < count p → view p i ≡ tuple_at p (offset p i) (size p i)
view_in p i h = rw (lt→ltb i (count p) h)

pub view_beyond : (p : List ℕ) (i : ℕ) → count p ≤ i → view p i ≡ none
view_beyond p i h = rw (le→ltb i (count p) h)

pub tuple_at-live :
    (p : List ℕ) (o n : ℕ) → 0 < n → n < 2 ^ 31 → tuple_at p o n ≡ some (false, slice p o n)
tuple_at-live p o n pos small = rw (==_ne n 0 (λ e. omega arith), clear, whole) refl
  where
    clear : n / 2 ^ 31 % 2 ≡ 0
    clear = omega arith

    whole : n % 2 ^ 31 ≡ n
    whole = omega arith

pub tuple_at_kept :
    (p p' : List ℕ) (o o' s : ℕ)
    → (s ≢ 0 → slice p' o' (s % 2 ^ 31) ≡ slice p o (s % 2 ^ 31))
    → tuple_at p' o' s ≡ tuple_at p o s
tuple_at_kept p p' o o' s same = elim (ℕ_discrete s 0) [
  | yes e ↦ rw e
  | no ne ↦ rw (==_ne s 0 ne, same ne)
]

-- A slot whose size and whose bytes are as before.
pub view_kept :
    (p p' : List ℕ) (j : ℕ)
    → j < count p
    → j < count p'
    → size p' j ≡ size p j
    → (size p j ≢ 0
        → slice p' (offset p' j) (size p j % 2 ^ 31) ≡ slice p (offset p j) (size p j % 2 ^ 31))
    → view p' j ≡ view p j
view_kept p p' j h h' same bytes =
    view_in p' j h'
    ∙ ap (tuple_at p' (offset p' j)) same
    ∙ tuple_at_kept p p' (offset p j) (offset p' j) (size p j) bytes
    ∙ sym (view_in p j h)

-- A layout depends on the places and the lengths of the tuples alone; a tuple may also go.
pub Layout_kept :
    (c c' space space' : ℕ) (offset_of size_of offset_of' size_of' : ℕ → ℕ)
    → Layout c space offset_of size_of
    → c' ≡ c
    → space' ≡ space
    → ((j : ℕ)
        → j < c
        → (size_of' j < 2 ^ 32)
          × (size_of' j ≢ 0
              → (size_of j ≢ 0)
                × (offset_of' j ≡ offset_of j)
                × (size_of' j % 2 ^ 31 ≡ size_of j % 2 ^ 31)))
    → Layout c' space' offset_of' size_of'
Layout_kept c c' space space' offset_of size_of offset_of' size_of' l ec es same = record {
  room = omega (arith, l.room);
  ends = omega (arith, l.ends);
  small = λ j h. (same j (omega arith)).0;
  within = λ j h used.
      let t = (same j (omega arith)).1 used in
      let w = l.within j (omega arith) t.0 in
      (omega (arith, w, t.1), omega (arith, w, t.2), omega (arith, w, t.1, t.2));
  apart = λ j k hj hk ne uj uk.
      let t = (same j (omega arith)).1 uj in
      let u = (same k (omega arith)).1 uk in
      rw (t.1, t.2, u.1, u.2) (l.apart j k (omega arith) (omega arith) ne t.0 u.0);
}

-- The three states of a slot in use.
pub data SlotState (p : List ℕ) (i : ℕ) : Type 0 where
  empty_slot : size p i ≡ 0 → view p i ≡ none → SlotState p i
  marked_slot :
      2 ^ 31 < size p i
      → size p i < 2 ^ 32
      → view p i ≡ some (true, slice p (offset p i) (size p i % 2 ^ 31))
      → SlotState p i
  live_slot :
      0 < size p i
      → size p i < 2 ^ 31
      → view p i ≡ some (false, slice p (offset p i) (size p i))
      → SlotState p i

pub tuple_at-marked :
    (p : List ℕ) (o s : ℕ)
    → 2 ^ 31 ≤ s
    → s < 2 ^ 32
    → tuple_at p o s ≡ some (true, slice p o (s % 2 ^ 31))
tuple_at-marked p o s lo up = rw (==_ne s 0 (λ e. omega arith), set_bit) refl
  where
    set_bit : s / 2 ^ 31 % 2 ≡ 1
    set_bit = omega arith

pub slot_state : (p : List ℕ) (i : ℕ) → IsValid p → i < count p → SlotState p i
slot_state p i v h = elim (Bool-cases (ltb (size p i) (2 ^ 31))) [
  | inl low ↦ elim (ℕ_discrete (size p i) 0) [
    | yes e ↦ empty_slot e (view_in p i h ∙ rw e refl)
    | no ne ↦
        let s = ltb→lt _ _ low in
        let pos : 0 < size p i = omega arith in
        live_slot pos s (view_in p i h ∙ tuple_at-live p (offset p i) (size p i) pos s)
  ]
  | inr high ↦
      let s = ltb→le _ _ high in
      let up = v.layout.small i h in
      let w = v.layout.within i h (λ e. omega arith) in
      marked_slot (omega (arith, w)) up
        (view_in p i h ∙ tuple_at-marked p (offset p i) (size p i) s up)
]

pub is_deleted_live : (s : ℕ) → 0 < s → s < 2 ^ 31 → is_deleted s ≡ false
is_deleted_live s lo up = ground arith

pub is_deleted_marked : (s : ℕ) → 2 ^ 31 < s → s < 2 ^ 32 → is_deleted s ≡ true
is_deleted_marked s lo up = ground arith
