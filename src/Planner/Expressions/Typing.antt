-- ===== src/Planner/Expressions/Typing.antt =====
-- Evaluation of well-typed expressions (include/planner/expressions/).
use wslproject.Base.{
  ℕ, ◌≡◌, ◌≢◌, refl, sym, ◌∙◌, Bool, true, false, not, ◌||◌, List, [], ◌∷◌, some, Result, ok,
  if◌then◌else◌, arith, Bool-cases, inl, inr, length, lt→ltb, le→leb, ◌<◌, ◌≤◌, ◌^◌,
}
use wslproject.Record.Types.{
  TypeId, type_invalid, type_int, type_float, type_char, type_eq, CmpBool, cmp_true, cmp_false,
  cmp_null, cmp_code, get_cmp_bool, Field, int_field, CompareOp, equals, not_equals, less_than,
  less_than_equals, greater_than, greater_than_equals, compare_fields, compare_as, compare_numbers,
  compare_floats, int_key, test_sign, compare_strings, compare_bytes, or_lengths, memcmp,
}
use Prim.Native.Nat.{min, Ordering}
use wslproject.Record.Schema.{name_eq}
use wslproject.Record.Row.{Row, get_field}
use wslproject.Planner.Expressions.{
  Expression, column_value, constant_value, comparison, logic, return_type, perform_comparison,
  perform_computation, field_as_cmp_bool, evaluate, combine, as_condition, new_logic, LogicType,
}

abbrev pub Answers : Result CmpBool → Type 0
Answers result = (b : CmpBool) × (result ≡ ok b)

-- A text that is not null has at least as many bytes as its length says, which is below 2 GB.
abbrev pub Readable : Field → Type 0
Readable f = f.type_id ≡ type_char → f.is_null ≡ false → (f.len ≤ length f.chars) × (f.len < 2 ^ 31)

compare_strings-runs :
    (l r : Field)
    → (l.len ≤ length l.chars) × (l.len < 2 ^ 31)
    → (r.len ≤ length r.chars) × (r.len < 2 ^ 31)
    → (o : Ordering) × (compare_strings l.chars l.len r.chars r.len ≡ ok o)
unfolding compare_strings compare_bytes
compare_strings-runs l r (fits_left, small_left) (fits_right, small_right) = (
  or_lengths (memcmp (min l.len r.len) l.chars r.chars) l.len r.len,
  rw
      (
        lt→ltb l.len (2 ^ 31) small_left,
        lt→ltb r.len (2 ^ 31) small_right,
        le→leb (min l.len r.len) (length l.chars) (omega arith),
        le→leb (min l.len r.len) (length r.chars) (omega arith),
      )
      refl,
)

texts_compare :
    (op : CompareOp) (l r : Field) (o : Ordering)
    → l.type_id ≡ type_char
    → r.type_id ≡ type_char
    → l.is_null ≡ false
    → r.is_null ≡ false
    → compare_strings l.chars l.len r.chars r.len ≡ ok o
    → compare_as type_char op l r ≡ ok (get_cmp_bool (test_sign op o))
unfolding compare_as
texts_compare op l r o tl tr nl nr run = rw (tl, tr, nl, nr, run) refl

compare_as-Answers :
    (t : TypeId) (op : CompareOp) (l r : Field)
    → t ≢ type_invalid
    → l.type_id ≡ t
    → r.type_id ≡ t
    → Readable l
    → Readable r
    → Answers (compare_as t op l r)
unfolding compare_as
compare_as-Answers type_invalid op l r valid tl tr sl sr = absurd (valid refl)
compare_as-Answers type_int op l r valid tl tr sl sr = (
  if l.is_null || r.is_null
      then cmp_null
      else get_cmp_bool (compare_numbers op (int_key l.bits) (int_key r.bits)),
  ground arith,
)
compare_as-Answers type_float op l r valid tl tr sl sr = (
  if l.is_null || r.is_null then cmp_null else get_cmp_bool (compare_floats op l.bits r.bits),
  ground arith,
)
compare_as-Answers type_char op l r valid tl tr sl sr = elim (Bool-cases l.is_null) [
  | inl null ↦ (cmp_null, ground arith)
  | inr some_left ↦ elim (Bool-cases r.is_null) [
    | inl null ↦ (cmp_null, ground arith)
    | inr some_right ↦
        let (o, run) = compare_strings-runs l r (sl tl some_left) (sr tr some_right) in
        (get_cmp_bool (test_sign op o), texts_compare op l r o tl tr some_left some_right run)
  ]
]

compare_fields-Answers :
    (op : CompareOp) (l r : Field)
    → l.type_id ≢ type_invalid
    → l.type_id ≡ r.type_id
    → Readable l
    → Readable r
    → Answers (compare_fields op l r)
compare_fields-Answers op l r valid same = compare_as-Answers l.type_id op l r valid refl (sym same)

-- One of the eight operators.
abbrev pub known : List ℕ → Bool
known comp_type =
    name_eq comp_type (61 ∷ [])
    || (name_eq comp_type (60 ∷ 62 ∷ [])
        || (name_eq comp_type (60 ∷ [])
            || (name_eq comp_type (60 ∷ 61 ∷ [])
                || (name_eq comp_type (62 ∷ [])
                    || (name_eq comp_type (62 ∷ 61 ∷ [])
                        || (name_eq comp_type (105 ∷ 115 ∷ [])
                            || name_eq comp_type (110 ∷ 111 ∷ 116 ∷ [])))))))

-- A step in the chain of tests of PerformComparison.
choose :
    (test more : Bool) (x y : Result CmpBool)
    → Answers x
    → (more ≡ true → Answers y)
    → (test || more) ≡ true
    → Answers (if test then x else y)
choose true more x y a later h = a
choose false more x y a later h = later h

only :
    (test : Bool) (x y : Result CmpBool) → Answers x → test ≡ true → Answers (if test then x else y)
only true x y a h = a
only false x y a h = absurd (ground arith)

perform_comparison-Answers :
    (comp_type : List ℕ) (l r : Field)
    → l.type_id ≢ type_invalid
    → l.type_id ≡ r.type_id
    → Readable l
    → Readable r
    → known comp_type ≡ true
    → Answers (perform_comparison comp_type l r)
unfolding perform_comparison
perform_comparison-Answers comp_type l r valid same sl sr =
    let by = λ (op : CompareOp). compare_fields-Answers op l r valid same sl sr in
    choose (name_eq comp_type (61 ∷ [])) _ _ _ (by equals) (
      choose (name_eq comp_type (60 ∷ 62 ∷ [])) _ _ _ (by not_equals) (
        choose (name_eq comp_type (60 ∷ [])) _ _ _ (by less_than) (
          choose (name_eq comp_type (60 ∷ 61 ∷ [])) _ _ _ (by less_than_equals) (
            choose (name_eq comp_type (62 ∷ [])) _ _ _ (by greater_than) (
              choose (name_eq comp_type (62 ∷ 61 ∷ [])) _ _ _ (by greater_than_equals) (
                choose (name_eq comp_type (105 ∷ 115 ∷ [])) _ _ _ (get_cmp_bool l.is_null, refl)
                  (only (name_eq comp_type (110 ∷ 111 ∷ 116 ∷ [])) _ _
                    (get_cmp_bool (not l.is_null), refl))))))))

field_as_cmp_bool-Answers : (f : Field) → f.type_id ≡ type_int → Answers (field_as_cmp_bool f)
unfolding field_as_cmp_bool int_field compare_as
field_as_cmp_bool-Answers f t = elim (Bool-cases f.is_null) [
  | inl null ↦ (cmp_null, ground arith)
  | inr some_value ↦ (
    if as_condition (get_cmp_bool (compare_numbers equals (int_key f.bits) (int_key 1)))
        then cmp_true
        else cmp_false,
    ground arith,
  )
]

perform_computation-Answers :
    (logic_type : LogicType) (l r : Field)
    → l.type_id ≡ type_int
    → r.type_id ≡ type_int
    → Answers (perform_computation logic_type l r)
unfolding perform_computation
perform_computation-Answers logic_type l r tl tr =
    let (a, left) = field_as_cmp_bool-Answers l tl in
    let (b, right) = field_as_cmp_bool-Answers r tr in
    (combine logic_type a b, rw (left, right) refl)

-- The columns that an expression names are in the row, of its types; texts have the bytes of the length
-- that they state, below 2 GB; what it compares is of one type, by one of the eight operators; what it
-- joins by "and" or "or" are integers, as the constructor of LogicExpression demands.
abbrev pub WellTyped : Row → Expression → Type 0
WellTyped row (column_value row_idx col_idx type) =
    (type ≢ type_invalid)
    × (f : Field) × (get_field row col_idx ≡ ok f)
    × (f.type_id ≡ type)
    × Readable f
WellTyped row (constant_value val) = (val.type_id ≢ type_invalid) × Readable val
WellTyped row (comparison left right comp_type) =
    WellTyped row left
    × WellTyped row right
    × (return_type left ≡ return_type right)
    × (known comp_type ≡ true)
WellTyped row (logic left right logic_type) =
    WellTyped row left
    × WellTyped row right
    × (new_logic left right logic_type ≡ ok (logic left right logic_type))

abbrev pub Yields : TypeId → Result Field → Type 0
Yields t result = (f : Field) × (result ≡ ok f) × (f.type_id ≡ t) × Readable f

int_field-Yields : (n : ℕ) → Yields type_int (int_field type_int n)
unfolding int_field
int_field-Yields n = (_, refl, refl, λ h. absurd (text h))
  where
    text : type_int ≡ type_char → ⊥
    text h = cc

valid_type : (row : Row) (e : Expression) → WellTyped row e → return_type e ≢ type_invalid
valid_type row (column_value row_idx col_idx type) w = w.0
valid_type row (constant_value val) w = w.0
valid_type row (comparison left right comp_type) w = λ h. cc
valid_type row (logic left right logic_type) w = λ h. cc

type_eq-int : (t : TypeId) → type_eq t type_int ≡ true → t ≡ type_int
type_eq-int t h = ground arith

new_logic-ints :
    (left right : Expression) (logic_type : LogicType) {e : Expression}
    → new_logic left right logic_type ≡ ok e
    → (return_type left ≡ type_int) × (return_type right ≡ type_int)
unfolding new_logic
new_logic-ints left right logic_type h = elim (Bool-cases (type_eq (return_type left) type_int)) [
  | inr differs ↦ absurd (ground arith)
  | inl same ↦ elim (Bool-cases (type_eq (return_type right) type_int)) [
    | inr differs ↦ absurd (ground arith)
    | inl also ↦ (type_eq-int (return_type left) same, type_eq-int (return_type right) also)
  ]
]

-- A well-typed expression, whose texts that are not null have at least the bytes of the length that they
-- state, below 2 GB, is evaluated without a fault, to a value of the type that GetReturnType says; if
-- that is a text and not null, the same holds of it.
pub evaluate-Yields :
    (e : Expression) (row : Row) → WellTyped row e → Yields (return_type e) (evaluate e (some row))
unfolding evaluate
evaluate-Yields (column_value row_idx col_idx type) row (valid, f, at, typed, readable) =
    (f, at, typed, readable)
evaluate-Yields (constant_value val) row w = (val, refl, refl, w.1)
evaluate-Yields (comparison left right comp_type) row (wl, wr, same, op) =
    let (l, left_is, tl, sl) = evaluate-Yields left row wl in
    let (r, right_is, tr, sr) = evaluate-Yields right row wr in
    let (b, answer) =
      perform_comparison-Answers comp_type l r (λ h. valid_type row left wl (sym tl ∙ h))
        (tl ∙ same ∙ sym tr) sl sr op in
    rw (left_is, right_is, answer) (int_field-Yields (cmp_code b))
evaluate-Yields (logic left right logic_type) row (wl, wr, built) =
    let (l, left_is, tl, sl) = evaluate-Yields left row wl in
    let (r, right_is, tr, sr) = evaluate-Yields right row wr in
    let (int_left, int_right) = new_logic-ints left right logic_type built in
    let (b, answer) = perform_computation-Answers logic_type l r (tl ∙ int_left) (tr ∙ int_right) in
    rw (left_is, right_is, answer) (int_field-Yields (cmp_code b))
