-- ===== src/Record/Types/Order.antt =====
-- The comparisons of values (record/types.cpp): each type's order.
use wslproject.Base.{
  ℕ, zero, suc, ◌-◌, ◌^◌, ◌≡◌, ◌≢◌, ◌↔◌, refl, sym, ap, ◌∙◌, Bool, true, false, ◌||◌, List, [], ◌∷◌,
  Result, ok, err, ◌>>=◌, ltb, ◌==◌, arith, if◌then◌else◌,
}
use wslproject.Base.Bytes.{IsU32}
use wslproject.Base.Int.{ℤ, pos, negsuc, ◌<ℤ◌}
use wslproject.Record.Types.{
  TypeId, type_invalid, type_int, type_float, type_char, Field, cmp_null, cmp_true, CompareOp,
  equals, not_equals, less_than, less_than_equals, greater_than, greater_than_equals, get_cmp_bool,
  compare_fields, compare_as, compare_int, compare_numbers, int_key, float_key, compare_floats,
  compare_bytes, memcmp, compare_strings, test_sign, or_lengths,
}
use Prim.Native.Nat.{min, Ordering}

-- The integer that a 32-bit pattern stands for.
abbrev pub signed32 : ℕ → ℤ
signed32 w = if ltb w (2 ^ 31) then pos w else negsuc (2 ^ 32 - w - 1)

-- The operator of a comparison with its sides exchanged.
abbrev pub mirror : CompareOp → CompareOp
mirror equals = equals
mirror not_equals = not_equals
mirror less_than = greater_than
mirror less_than_equals = greater_than_equals
mirror greater_than = less_than
mirror greater_than_equals = less_than_equals

int_key_lem :
    (a b : ℕ)
    → IsU32 a
    → IsU32 b
    → (ltb (int_key a) (int_key b) ≡ true) ↔ (signed32 a <ℤ signed32 b)
unfolding int_key
int_key_lem a b ha hb = ground arith

int_key_inj :
    (a b : ℕ) → IsU32 a → IsU32 b → ((int_key a == int_key b) ≡ true) ↔ (signed32 a ≡ signed32 b)
unfolding int_key
int_key_inj a b ha hb = ground arith

-- Between integer values that are not null, CompareLessThan and CompareEquals answer true exactly
-- if the integers that the 32-bit patterns stand for are so related.
pub compare_fields-signed32 :
    (l r : Field)
    → l.type_id ≡ type_int
    → r.type_id ≡ type_int
    → l.is_null ≡ false
    → r.is_null ≡ false
    → IsU32 l.bits
    → IsU32 r.bits
    → ((compare_fields less_than l r ≡ ok cmp_true) ↔ (signed32 l.bits <ℤ signed32 r.bits))
      × ((compare_fields equals l r ≡ ok cmp_true) ↔ (signed32 l.bits ≡ signed32 r.bits))
unfolding compare_as
compare_fields-signed32 l r tl tr nl nr hl hr =
    (((λ e. ground arith), (λ e. ground arith)), ((λ e. ground arith), (λ e. ground arith)))

-- A comparison of two values of one valid type, one of which is null, answers null, whatever the
-- operator.
pub compare_fields-null :
    (op : CompareOp) (l r : Field)
    → l.type_id ≡ r.type_id
    → l.type_id ≢ type_invalid
    → (l.is_null || r.is_null) ≡ true
    → compare_fields op l r ≡ ok cmp_null
unfolding compare_as
compare_fields-null op l r t h n = ground arith

compare_numbers-mirror :
    (op : CompareOp) (a b : ℕ) → compare_numbers (mirror op) b a ≡ compare_numbers op a b
unfolding compare_numbers
compare_numbers-mirror equals a b = ground arith
compare_numbers-mirror _ a b = ground arith

compare_floats-mirror :
    (op : CompareOp) (a b : ℕ) → compare_floats (mirror op) b a ≡ compare_floats op a b
unfolding compare_floats
compare_floats-mirror not_equals a b =
    ground (arith, compare_numbers-mirror not_equals (float_key a) (float_key b))
compare_floats-mirror op a b = ground arith

swap : Ordering → Ordering
swap Ordering.lt = Ordering.gt
swap Ordering.eq = Ordering.eq
swap Ordering.gt = Ordering.lt

memcmp-swap : (n : ℕ) (a b : List ℕ) → memcmp n b a ≡ swap (memcmp n a b)
unfolding memcmp swap
memcmp-swap zero a b = refl
memcmp-swap (suc n) [] [] = refl
memcmp-swap (suc n) [] (y ∷ b) = refl
memcmp-swap (suc n) (x ∷ a) [] = refl
memcmp-swap (suc n) (x ∷ a) (y ∷ b) = ground (arith, memcmp-swap n a b)

min_comm : (a b : ℕ) → min a b ≡ min b a
min_comm a b = omega arith

or_lengths-swap : (o : Ordering) (m n : ℕ) → or_lengths (swap o) n m ≡ swap (or_lengths o m n)
unfolding swap
or_lengths-swap o m n = ground arith

compare_strings-swap :
    (a b : List ℕ) (m n : ℕ)
    → compare_strings b n a m ≡ (compare_strings a m b n >>= λ o. ok (swap o))
unfolding compare_strings compare_bytes
compare_strings-swap a b m n =
    let least : min n m ≡ min m n = min_comm n m in
    let bytes = memcmp-swap (min m n) a b in
    let sign = or_lengths-swap (memcmp (min m n) a b) m n in
    rw (least, bytes) (ground (arith, sign))

test_sign-mirror : (op : CompareOp) (o : Ordering) → test_sign (mirror op) (swap o) ≡ test_sign op o
unfolding test_sign swap
test_sign-mirror equals o = ground arith
test_sign-mirror _ o = ground arith

answers-mirror :
    (op : CompareOp) (result : Result Ordering)
    → ((result >>= λ o. ok (swap o)) >>= λ o. ok (get_cmp_bool (test_sign (mirror op) o)))
      ≡ (result >>= λ o. ok (get_cmp_bool (test_sign op o)))
answers-mirror op (err f) = refl
answers-mirror op (ok o) = ap (λ (b : Bool). ok (get_cmp_bool b)) (test_sign-mirror op o)

compare_as-mirror :
    (t : TypeId) (op : CompareOp) (l r : Field)
    → l.type_id ≡ r.type_id
    → compare_as t (mirror op) r l ≡ compare_as t op l r
unfolding compare_as
compare_as-mirror type_invalid op l r h = refl
compare_as-mirror type_int op l r h =
    unfold compare_int in
    ground (arith, compare_numbers-mirror op (int_key l.bits) (int_key r.bits))
compare_as-mirror type_float op l r h = ground (arith, compare_floats-mirror op l.bits r.bits)
compare_as-mirror type_char op l r h =
    let swapped = compare_strings-swap l.chars r.chars l.len r.len in
    let signs = answers-mirror op (compare_strings l.chars l.len r.chars r.len) in
    ground (arith, swapped, signs)

-- To exchange the two sides of a comparison is to exchange the sides of its operator, for values of
-- one type, floats that are no numbers and null values included.
pub compare_fields-mirror :
    (op : CompareOp) (l r : Field)
    → l.type_id ≡ r.type_id
    → compare_fields (mirror op) r l ≡ compare_fields op l r
compare_fields-mirror op l r t =
    ap (λ (u : TypeId). compare_as u (mirror op) r l) (sym t) ∙ compare_as-mirror l.type_id op l r t
