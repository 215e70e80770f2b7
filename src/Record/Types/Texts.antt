-- ===== src/Record/Types/Texts.antt =====
-- The comparisons of texts (TypeChar in record/types.cpp) and the lexicographic order.
use wslproject.Base.{
  ◌⊎◌, ℕ, zero, suc, ◌<◌, ◌≡◌, ◌↔◌, refl, false, List, [], ◌∷◌, ok, length, arith, ap, ◌^◌, lt→ltb,
  le→leb,
}
use wslproject.Record.Types.{
  type_char, Field, cmp_true, CompareOp, equals, less_than, get_cmp_bool, compare_fields,
  compare_as, compare_bytes, memcmp, compare_strings, test_sign, or_lengths,
}
use Prim.Native.Nat.{min, Ordering, compare}

-- The order of texts: the first byte that differs decides, and a proper prefix comes first.
abbrev pub LexLt : List ℕ → List ℕ → Type 0
LexLt [] [] = ⊥
LexLt [] (y ∷ b) = Unit {0}
LexLt (x ∷ a) [] = ⊥
LexLt (x ∷ a) (y ∷ b) = (x < y) ⊎ ((x ≡ y) × LexLt a b)

lex : List ℕ → List ℕ → Ordering
lex [] [] = Ordering.eq
lex [] (y ∷ b) = Ordering.lt
lex (x ∷ a) [] = Ordering.gt
lex (x ∷ a) (y ∷ b) =
    let rest = lex a b in
    elim (compare x y) [
      | Ordering.lt ↦ Ordering.lt
      | Ordering.gt ↦ Ordering.gt
      | Ordering.eq ↦ rest
    ]

memcmp-lex :
    (a b : List ℕ) (k : ℕ)
    → k ≡ min (length a) (length b)
    → or_lengths (memcmp k a b) (length a) (length b) ≡ lex a b
unfolding memcmp lex
memcmp-lex [] [] zero h = ground arith
memcmp-lex [] (y ∷ b) zero h = ground arith
memcmp-lex (x ∷ a) [] zero h = ground arith
memcmp-lex (x ∷ a) (y ∷ b) zero h = absurd (omega arith)
memcmp-lex [] b (suc k) h = absurd (omega arith)
memcmp-lex (x ∷ a) [] (suc k) h = absurd (omega arith)
memcmp-lex (x ∷ a) (y ∷ b) (suc k) h = ground (arith, memcmp-lex a b k (omega arith))

compare_strings-lex :
    (a b : List ℕ)
    → length a < 2 ^ 31
    → length b < 2 ^ 31
    → compare_strings a (length a) b (length b) ≡ ok (lex a b)
unfolding compare_strings compare_bytes
compare_strings-lex a b ha hb =
    rw
      (
        lt→ltb (length a) (2 ^ 31) ha,
        lt→ltb (length b) (2 ^ 31) hb,
        le→leb (min (length a) (length b)) (length a) (omega arith),
        le→leb (min (length a) (length b)) (length b) (omega arith),
      )
      (ap (λ (o : Ordering). ok o) (memcmp-lex a b (min (length a) (length b)) refl))

lex-LexLt : (a b : List ℕ) → (lex a b ≡ Ordering.lt) ↔ LexLt a b
unfolding lex
lex-LexLt [] [] = ground arith
lex-LexLt [] (y ∷ b) = ground arith
lex-LexLt (x ∷ a) [] = ground arith
lex-LexLt (x ∷ a) (y ∷ b) = ground (arith, lex-LexLt a b)

lex-eq : (a b : List ℕ) → (lex a b ≡ Ordering.eq) ↔ (a ≡ b)
unfolding lex
lex-eq [] [] = ground arith
lex-eq [] (y ∷ b) = ground arith
lex-eq (x ∷ a) [] = ground arith
lex-eq (x ∷ a) (y ∷ b) = ground (arith, lex-eq a b)

char_compares :
    (op : CompareOp) (l r : Field)
    → l.type_id ≡ type_char
    → r.type_id ≡ type_char
    → l.is_null ≡ false
    → r.is_null ≡ false
    → l.len ≡ length l.chars
    → r.len ≡ length r.chars
    → l.len < 2 ^ 31
    → r.len < 2 ^ 31
    → compare_fields op l r ≡ ok (get_cmp_bool (test_sign op (lex l.chars r.chars)))
unfolding compare_as
char_compares op l r tl tr nl nr hl hr small_left small_right =
    let run : compare_strings l.chars l.len r.chars r.len ≡ ok (lex l.chars r.chars) =
      rw (hl, hr) (compare_strings-lex l.chars r.chars (omega arith) (omega arith)) in
    rw (tl, tr, nl, nr, run) refl

test_lt : (o : Ordering) → ok (get_cmp_bool (test_sign less_than o)) ≡ ok cmp_true → o ≡ Ordering.lt
unfolding test_sign
test_lt o h = ground arith

test_eq : (o : Ordering) → ok (get_cmp_bool (test_sign equals o)) ≡ ok cmp_true → o ≡ Ordering.eq
unfolding test_sign
test_eq o h = ground arith

-- Between texts that are not null, of the lengths that the fields state and shorter than 2 GB,
-- CompareLessThan is the lexicographic order of their bytes, and CompareEquals is equality of their bytes.
pub compare_fields-LexLt :
    (l r : Field)
    → l.type_id ≡ type_char
    → r.type_id ≡ type_char
    → l.is_null ≡ false
    → r.is_null ≡ false
    → l.len ≡ length l.chars
    → r.len ≡ length r.chars
    → l.len < 2 ^ 31
    → r.len < 2 ^ 31
    → ((compare_fields less_than l r ≡ ok cmp_true) ↔ LexLt l.chars r.chars)
      × ((compare_fields equals l r ≡ ok cmp_true) ↔ (l.chars ≡ r.chars))
compare_fields-LexLt l r tl tr nl nr hl hr sl sr =
    let less = lex-LexLt l.chars r.chars in
    let same = lex-eq l.chars r.chars in
    rw
      (
        char_compares less_than l r tl tr nl nr hl hr sl sr,
        char_compares equals l r tl tr nl nr hl hr sl sr,
      )
      (
        ((λ e. less.0 (test_lt _ e)), (λ e. rw (less.1 e) (unfold test_sign in refl))),
        ((λ e. same.0 (test_eq _ e)), (λ e. rw (same.1 e) (unfold test_sign in refl))),
      )
