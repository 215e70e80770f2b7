-- ===== src/Pages/TablePage/Placement.antt =====
-- What InsertTuple of page/table_page.cpp writes into the page, and what the page is then.
use wslproject.Base.{
  ℕ, ◌+◌, ◌*◌, ◌%◌, ◌^◌, ◌≤◌, ◌<◌, ◌≡◌, inl, inr, refl, ◌∙◌, List, ◌==◌, if◌then◌else◌, length,
  arith,
}
use wslproject.Base.Bytes.{length-write_u32}
use wslproject.Base.Memory.{word, slice, splice, put}
use wslproject.Base.Blocks.{length-splice, word-splice, word-put, slice-splice, slice-splice_self}
use wslproject.Pages.TablePage.Layout.{free_space, count, offset, size, SameLinks}

-- The page with the tuple and its slot written, the counter not yet.
abbrev pub placed : List ℕ → ℕ → ℕ → List ℕ → ℕ → List ℕ
placed p i a bs n = put (put (splice (put p 16 a) a bs) (24 + 8 * i) a) (28 + 8 * i) n

-- What the page is after a tuple `bs` of `n` bytes is placed at `a` for slot `i`.
pub record Placed (p p' : List ℕ) (i a n : ℕ) (bs : List ℕ) (c' : ℕ) : Type 0 where
  pub sized : length p' ≡ 4096
  pub links : SameLinks p p'
  pub space : free_space p' ≡ a
  pub counted : count p' ≡ c'
  pub offsets : (j : ℕ) → 32 + 8 * j ≤ a → offset p' j ≡ (if i == j then a else offset p j)
  pub sizes : (j : ℕ) → 32 + 8 * j ≤ a → size p' j ≡ (if i == j then n else size p j)
  pub tuples : (o k : ℕ) → a + n ≤ o → o + k ≤ 4096 → slice p' o k ≡ slice p o k
  pub own : slice p' a n ≡ bs

module _ (p : List ℕ) (i a n : ℕ) (bs : List ℕ) (sized : length p ≡ 4096) (long : length bs ≡ n)
    (fits : a + n ≤ 4096) (below : 32 + 8 * i ≤ a) (small : n < 2 ^ 31) where
  abbrev pub claimed : List ℕ
  claimed = put p 16 a

  abbrev pub written : List ℕ
  written = splice claimed a bs

  abbrev pub with_offset : List ℕ
  with_offset = put written (24 + 8 * i) a

  pub length-claimed : length claimed ≡ 4096
  length-claimed = length-splice p 16 _ ∙ sized

  pub length-written : length written ≡ 4096
  length-written = length-splice claimed a bs ∙ length-claimed

  pub length-with_offset : length with_offset ≡ 4096
  length-with_offset = length-splice written (24 + 8 * i) _ ∙ length-written

  pub length-placed : length (placed p i a bs n) ≡ 4096
  length-placed = length-splice with_offset (28 + 8 * i) _ ∙ length-with_offset

  pub word-claimed : word claimed 16 ≡ a
  word-claimed = word-put p 16 a 16 refl (omega arith) (omega arith) ∙ ground arith

  pub word-written : word written 16 ≡ a
  word-written =
      word-splice claimed a bs 16 (omega (arith, length-claimed)) (inl (omega arith)) ∙ word-claimed

  -- Every word below the tuple.
  pub word-placed :
      (q : ℕ)
      → q % 4 ≡ 0
      → q + 4 ≤ a
      → word (placed p i a bs n) q ≡ (
          if 28 + 8 * i == q
          then n
          else if 24 + 8 * i == q
          then a
          else if 16 == q
          then a
          else word p q)
  word-placed q aligned h = rw (
    word-put with_offset (28 + 8 * i) n q (omega arith) (omega (arith, length-with_offset))
        (omega arith),
    word-put written (24 + 8 * i) a q (omega arith) (omega (arith, length-written)) (omega arith),
    word-splice claimed a bs q (omega (arith, length-claimed)) (inl h),
    word-put p 16 a q (omega arith) (omega arith) (omega arith),
  )

  slice-placed : (o k : ℕ) → a + n ≤ o → o + k ≤ 4096 → slice (placed p i a bs n) o k ≡ slice p o k
  slice-placed o k lo hi =
      slice-splice with_offset (28 + 8 * i) _ o k
        (omega (arith, length-with_offset, length-write_u32 n)) (omega (arith, length-with_offset))
        (inr (omega (arith, length-write_u32 n)))
      ∙ slice-splice written (24 + 8 * i) _ o k (omega (arith, length-written, length-write_u32 a))
          (omega (arith, length-written)) (inr (omega (arith, length-write_u32 a)))
      ∙ slice-splice claimed a bs o k (omega (arith, length-claimed))
          (omega (arith, length-claimed)) (inr (omega arith))
      ∙ slice-splice p 16 _ o k (omega (arith, length-write_u32 a)) (omega arith)
          (inr (omega (arith, length-write_u32 a)))

  slice-placed_own : slice (placed p i a bs n) a n ≡ bs
  slice-placed_own =
      slice-splice with_offset (28 + 8 * i) _ a n
        (omega (arith, length-with_offset, length-write_u32 n)) (omega (arith, length-with_offset))
        (inr (omega (arith, length-write_u32 n)))
      ∙ slice-splice written (24 + 8 * i) _ a n (omega (arith, length-written, length-write_u32 a))
          (omega (arith, length-written)) (inr (omega (arith, length-write_u32 a)))
      ∙ rw (← long) (slice-splice_self claimed a bs (omega (arith, length-claimed)))

  -- In a slot that was in use, the counter stays.
  pub placed_old : i < count p → Placed p (placed p i a bs n) i a n bs (count p)
  placed_old old = record {
    sized = length-placed;
    links = (
      word-placed 0 (omega arith) (omega arith) ∙ ground arith,
      word-placed 8 (omega arith) (omega arith) ∙ ground arith,
      word-placed 12 (omega arith) (omega arith) ∙ ground arith,
    );
    space = word-placed 16 (omega arith) (omega arith) ∙ ground arith;
    counted = word-placed 20 (omega arith) (omega arith) ∙ ground arith;
    offsets = λ j h. word-placed (24 + 8 * j) (omega arith) (omega arith) ∙ ground arith;
    sizes = λ j h. word-placed (28 + 8 * j) (omega arith) (omega arith) ∙ ground arith;
    tuples = slice-placed;
    own = slice-placed_own;
  }

  -- Behind the slots in use, the counter goes up.
  pub placed_new : (c' : ℕ) → c' ≤ 4096 → Placed p (put (placed p i a bs n) 20 c') i a n bs c'
  placed_new c' few = record {
    sized = length-splice (placed p i a bs n) 20 _ ∙ length-placed;
    links = (
      at 0 (omega arith) ∙ (word-placed 0 (omega arith) (omega arith) ∙ ground arith),
      at 8 (omega arith) ∙ (word-placed 8 (omega arith) (omega arith) ∙ ground arith),
      at 12 (omega arith) ∙ (word-placed 12 (omega arith) (omega arith) ∙ ground arith),
    );
    space = at 16 (omega arith) ∙ (word-placed 16 (omega arith) (omega arith) ∙ ground arith);
    counted = at 20 (omega arith) ∙ ground arith;
    offsets = λ j h.
        at (24 + 8 * j) (omega arith)
        ∙ (ground arith ∙ (word-placed (24 + 8 * j) (omega arith) (omega arith) ∙ ground arith));
    sizes = λ j h.
        at (28 + 8 * j) (omega arith)
        ∙ (ground arith ∙ (word-placed (28 + 8 * j) (omega arith) (omega arith) ∙ ground arith));
    tuples = λ o k lo hi. behind o k (omega arith) hi ∙ slice-placed o k lo hi;
    own = behind a n (omega arith) fits ∙ slice-placed_own;
  }
    where
      at :
          (q : ℕ)
          → q % 4 ≡ 0
          → word (put (placed p i a bs n) 20 c') q
            ≡ (if 20 == q then c' else word (placed p i a bs n) q)
      at q aligned =
          word-put (placed p i a bs n) 20 c' q (omega arith) (omega (arith, length-placed))
            (omega arith)

      behind :
          (o k : ℕ)
          → 24 ≤ o
          → o + k ≤ 4096
          → slice (put (placed p i a bs n) 20 c') o k ≡ slice (placed p i a bs n) o k
      behind o k lo hi =
          slice-splice (placed p i a bs n) 20 _ o k
            (omega (arith, length-placed, length-write_u32 c')) (omega (arith, length-placed))
            (inr (omega (arith, length-write_u32 c')))
