-- ===== src/Base/Blocks.antt =====
-- What is read from a block of memory after a write.
use wslproject.Base.Lists.{length, get_or, take, drop, All, All-get_or}
use wslproject.Base.Tests.{ltb, ◌==◌, ==_refl, ==_ne, if◌then◌else◌}
use wslproject.Base.Bytes.{IsByte, IsU32, write_u32, length-write_u32}
use Prim.Native.Nat.{ℕ, zero, suc, ◌+◌, ◌-◌, ◌%◌, ◌≤◌, ◌<◌}
use mathlib.Core.Path.{◌≡◌, refl, ap, ◌∙◌, sym}
use mathlib.Core.Logic.{◌≢◌, ◌⊎◌}
use mathlib.Core.List.{List, [], ◌∷◌, ◌++◌}
use native.Mathlib.Omega.{arith}
use native.Mathlib.Decide.{ℕ_discrete}
use wslproject.Base.Memory.{splice, slice, word, put}

pub length-splice : (p : List ℕ) (o : ℕ) (bs : List ℕ) → length (splice p o bs) ≡ length p
unfolding splice
length-splice [] o bs = refl
length-splice (x ∷ p) zero [] = refl
length-splice (x ∷ p) zero (b ∷ bs) = ap suc (length-splice p zero bs)
length-splice (x ∷ p) (suc o) bs = ap suc (length-splice p o bs)

pub get_or-splice :
    (p : List ℕ) (o : ℕ) (bs : List ℕ) (i : ℕ)
    → o + length bs ≤ length p
    → get_or (splice p o bs) i 0 ≡ (
        if ltb i o
        then get_or p i 0
        else if ltb i (o + length bs)
        then get_or bs (i - o) 0
        else get_or p i 0)
unfolding splice
get_or-splice [] zero [] i h = ground arith
get_or-splice [] zero (b ∷ bs) i h = absurd (omega arith)
get_or-splice [] (suc o) bs i h = absurd (omega arith)
get_or-splice (x ∷ p) zero [] i h = ground arith
get_or-splice (x ∷ p) zero (b ∷ bs) zero h = ground arith
get_or-splice (x ∷ p) zero (b ∷ bs) (suc i) h = ground (arith, get_or-splice p zero bs i)
get_or-splice (x ∷ p) (suc o) bs zero h = ground arith
get_or-splice (x ∷ p) (suc o) bs (suc i) h = ground (arith, get_or-splice p o bs i)

pub splice-IsByte :
    (p : List ℕ) (o : ℕ) (bs : List ℕ) → All IsByte p → All IsByte bs → All IsByte (splice p o bs)
unfolding splice
splice-IsByte [] o bs h hb = tt
splice-IsByte (x ∷ p) zero [] h hb = h
splice-IsByte (x ∷ p) zero (b ∷ bs) h hb = (hb.0, splice-IsByte p zero bs h.1 hb.1)
splice-IsByte (x ∷ p) (suc o) bs h hb = (h.0, splice-IsByte p o bs h.1 hb)

-- A word that a write does not touch.
pub word-splice :
    (p : List ℕ) (o : ℕ) (bs : List ℕ) (q : ℕ)
    → o + length bs ≤ length p
    → (q + 4 ≤ o) ⊎ (o + length bs ≤ q)
    → word (splice p o bs) q ≡ word p q
unfolding word
word-splice p o bs q h apart = ground (
  arith,
  get_or-splice p o bs q,
  get_or-splice p o bs (q + 1),
  get_or-splice p o bs (q + 2),
  get_or-splice p o bs (q + 3),
)

get_or-splice_in :
    (p : List ℕ) (o : ℕ) (bs : List ℕ) (k i : ℕ)
    → o + length bs ≤ length p
    → k < length bs
    → i ≡ o + k
    → get_or (splice p o bs) i 0 ≡ get_or bs k 0
get_or-splice_in p o bs k i h hk e =
    get_or-splice p o bs i h ∙ ground (arith, ap (λ (t : ℕ). get_or bs t 0) same)
  where
    same : i - o ≡ k
    same = omega arith

word-put_self : (p : List ℕ) (o n : ℕ) → o + 4 ≤ length p → IsU32 n → word (put p o n) o ≡ n
unfolding word
word-put_self p o n h small =
    rw
      (
        get_or-splice_in p o (write_u32 n) 0 o room (omega (arith, long)) (omega arith),
        get_or-splice_in p o (write_u32 n) 1 (o + 1) room (omega (arith, long)) refl,
        get_or-splice_in p o (write_u32 n) 2 (o + 2) room (omega (arith, long)) refl,
        get_or-splice_in p o (write_u32 n) 3 (o + 3) room (omega (arith, long)) refl,
      )
      (unfold write_u32 in omega arith)
  where
    long : length (write_u32 n) ≡ 4
    long = length-write_u32 n

    room : o + length (write_u32 n) ≤ length p
    room = omega (arith, length-write_u32 n)

-- Words at offsets that differ by a multiple of four do not overlap.
pub word-put :
    (p : List ℕ) (o n q : ℕ)
    → o % 4 ≡ q % 4
    → o + 4 ≤ length p
    → IsU32 n
    → word (put p o n) q ≡ (if o == q then n else word p q)
word-put p o n q aligned h small = elim (ℕ_discrete o q) [
  | yes e ↦ rw (← e, ==_refl o) (word-put_self p o n h small)
  | no ne ↦
      rw (==_ne o q ne)
        (word-splice p o (write_u32 n) q (omega (arith, length-write_u32 n)) (apart ne))
]
  where
    apart : o ≢ q → (q + 4 ≤ o) ⊎ (o + length (write_u32 n) ≤ q)
    apart ne = rw (length-write_u32 n) (ground arith)

pub word-IsU32 : (p : List ℕ) (o : ℕ) → All IsByte p → IsU32 (word p o)
unfolding word
word-IsU32 p o h = omega (
  arith,
  All-get_or IsByte p o 0 h (omega arith),
  All-get_or IsByte p (o + 1) 0 h (omega arith),
  All-get_or IsByte p (o + 2) 0 h (omega arith),
  All-get_or IsByte p (o + 3) 0 h (omega arith),
)

list_ext :
    (xs ys : List ℕ)
    → length xs ≡ length ys
    → ((i : ℕ) → i < length xs → get_or xs i 0 ≡ get_or ys i 0)
    → xs ≡ ys
list_ext [] [] h same = refl
list_ext [] (y ∷ ys) h same = absurd (omega arith)
list_ext (x ∷ xs) [] h same = absurd (omega arith)
list_ext (x ∷ xs) (y ∷ ys) h same =
    cc (same 0 (omega arith), list_ext xs ys (omega arith) (λ i hi. same (suc i) (omega arith)))

length-take : (n : ℕ) (p : List ℕ) → n ≤ length p → length (take n p) ≡ n
length-take zero p h = refl
length-take (suc n) [] h = absurd (omega arith)
length-take (suc n) (x ∷ p) h = ap suc (length-take n p (omega arith))

pub length-slice : (p : List ℕ) (o n : ℕ) → o + n ≤ length p → length (slice p o n) ≡ n
length-slice p zero n h = length-take n p (omega arith)
length-slice [] (suc o) n h = absurd (omega arith)
length-slice (x ∷ p) (suc o) n h = length-slice p o n (omega arith)

get_or-take : (n : ℕ) (p : List ℕ) (i : ℕ) → i < n → get_or (take n p) i 0 ≡ get_or p i 0
get_or-take zero p i h = absurd (omega arith)
get_or-take (suc n) [] i h = refl
get_or-take (suc n) (x ∷ p) zero h = refl
get_or-take (suc n) (x ∷ p) (suc i) h = get_or-take n p i (omega arith)

get_or-drop : (o : ℕ) (p : List ℕ) (i j : ℕ) → j ≡ o + i → get_or (drop o p) i 0 ≡ get_or p j 0
get_or-drop zero p i j e = ap (λ (t : ℕ). get_or p t 0) (omega arith)
get_or-drop (suc o) [] i j e = refl
get_or-drop (suc o) (x ∷ p) i zero e = absurd (omega arith)
get_or-drop (suc o) (x ∷ p) i (suc j) e = get_or-drop o p i j (omega arith)

pub get_or-slice : (p : List ℕ) (o n i : ℕ) → i < n → get_or (slice p o n) i 0 ≡ get_or p (o + i) 0
get_or-slice p o n i h = get_or-take n (drop o p) i h ∙ get_or-drop o p i (o + i) refl

-- What is read from a block depends on its bytes alone.
pub slice_ext :
    (p q : List ℕ) (n o o' : ℕ)
    → o + n ≤ length p
    → o' + n ≤ length q
    → ((i : ℕ) → i < n → get_or p (o + i) 0 ≡ get_or q (o' + i) 0)
    → slice p o n ≡ slice q o' n
slice_ext p q n o o' hp hq same =
    list_ext (slice p o n) (slice q o' n) (length-slice p o n hp ∙ sym (length-slice q o' n hq))
      (λ i hi.
        let small : i < n = omega (arith, length-slice p o n hp) in
        get_or-slice p o n i small ∙ same i small ∙ sym (get_or-slice q o' n i small))

pub slice-splice_self :
    (p : List ℕ) (o : ℕ) (bs : List ℕ)
    → o + length bs ≤ length p
    → slice (splice p o bs) o (length bs) ≡ bs
slice-splice_self p o bs h = list_ext (slice (splice p o bs) o (length bs)) bs long (λ i hi.
    let small : i < length bs = omega (arith, long) in
    get_or-slice (splice p o bs) o (length bs) i small
    ∙ get_or-splice_in p o bs i (o + i) h small refl)
  where
    long : length (slice (splice p o bs) o (length bs)) ≡ length bs
    long = length-slice (splice p o bs) o (length bs) (omega (arith, length-splice p o bs))

pub slice-splice :
    (p : List ℕ) (o : ℕ) (bs : List ℕ) (a n : ℕ)
    → o + length bs ≤ length p
    → a + n ≤ length p
    → (a + n ≤ o) ⊎ (o + length bs ≤ a)
    → slice (splice p o bs) a n ≡ slice p a n
slice-splice p o bs a n h ha apart =
    slice_ext (splice p o bs) p n a a (omega (arith, length-splice p o bs)) ha
      (λ i hi. get_or-splice p o bs (a + i) h ∙ ground arith)

-- A part of what memmove copies.
pub slice-move :
    (p : List ℕ) (d s k a b n : ℕ)
    → d + k ≤ length p
    → s + k ≤ length p
    → s ≤ a
    → a + n ≤ s + k
    → b + s ≡ a + d
    → slice (splice p d (slice p s k)) b n ≡ slice p a n
slice-move p d s k a b n hd hs lo hi at =
    slice_ext (splice p d (slice p s k)) p n b a (omega (arith, length-splice p d (slice p s k)))
      (omega arith)
      (λ i small.
        get_or-splice_in p d (slice p s k) (b + i - d) (b + i)
          (omega (arith, length-slice p s k hs)) (omega (arith, length-slice p s k hs))
          (omega arith)
        ∙ get_or-slice p s k (b + i - d) (omega arith)
        ∙ ap (λ (t : ℕ). get_or p t 0) (omega arith))

-- The bytes at an offset stand at the head of what follows.
pub drop-slice : (p : List ℕ) (o n : ℕ) → drop o p ≡ slice p o n ++ drop n (drop o p)
drop-slice p o n = take_drop n (drop o p)
  where
    take_drop : (n : ℕ) (q : List ℕ) → q ≡ take n q ++ drop n q
    take_drop zero q = refl
    take_drop (suc n) [] = refl
    take_drop (suc n) (x ∷ q) = ap (◌∷◌ x) (take_drop n q)
