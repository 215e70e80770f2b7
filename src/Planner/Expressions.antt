-- ===== src/Planner/Expressions.antt =====
-- include/planner/expressions/: expressions over the fields of a row, and their evaluation.
-- The null pointer for a row is `none`. A comparison operator is the bytes of its name.
pub mod Logic
pub mod Typing
use wslproject.Base.{
  ℕ, zero, suc, ◌+◌, ◌%◌, Bool, true, false, not, ◌&&◌, ◌||◌, List, [], ◌∷◌, Option, none, some,
  Result, ok, err, logic_error, ◌>>=◌, ◌==◌, if◌then◌else◌,
}
use wslproject.Record.Types.{
  TypeId, type_int, type_eq, CmpBool, cmp_true, cmp_false, cmp_null, cmp_code, get_cmp_bool, Field,
  int_field, CompareOp, equals, not_equals, less_than, less_than_equals, greater_than,
  greater_than_equals, compare_fields,
}
use wslproject.Record.Schema.{name_eq, deref}
use wslproject.Record.Row.{Row, get_field}

pub data LogicType : Type 0 where
  logic_and logic_or : LogicType

pub data Expression : Type 0 where
  column_value : (row_idx col_idx : ℕ) → TypeId → Expression
  constant_value : Field → Expression
  comparison : Expression → Expression → (comp_type : List ℕ) → Expression
  logic : Expression → Expression → LogicType → Expression

-- GetReturnType, as the constructors set it
abbrev pub return_type : Expression → TypeId
return_type (column_value row_idx col_idx type) = type
return_type (constant_value val) = val.type_id
return_type (comparison left right comp_type) = type_int
return_type (logic left right logic_type) = type_int

-- The constructor of LogicExpression throws unless both sides are integers.
unfoldable pub new_logic : Expression → Expression → LogicType → Result Expression
new_logic left right logic_type =
    if not (type_eq (return_type left) type_int) || not (type_eq (return_type right) type_int)
    then err logic_error
    else ok (logic left right logic_type)

-- LogicExpression::Char2Type, of "and" and "or"
unfoldable pub char_to_type : List ℕ → Result LogicType
char_to_type val =
    if name_eq val (97 ∷ 110 ∷ 100 ∷ [])
    then ok logic_and
    else if name_eq val (111 ∷ 114 ∷ [])
    then ok logic_or
    else err logic_error

-- ComparisonExpression::PerformComparison, of "=", "<>", "<", "<=", ">", ">=", "is" and "not"
unfoldable pub perform_comparison : List ℕ → Field → Field → Result CmpBool
perform_comparison comp_type lhs rhs =
    if name_eq comp_type (61 ∷ [])
    then compare_fields equals lhs rhs
    else if name_eq comp_type (60 ∷ 62 ∷ [])
    then compare_fields not_equals lhs rhs
    else if name_eq comp_type (60 ∷ [])
    then compare_fields less_than lhs rhs
    else if name_eq comp_type (60 ∷ 61 ∷ [])
    then compare_fields less_than_equals lhs rhs
    else if name_eq comp_type (62 ∷ [])
    then compare_fields greater_than lhs rhs
    else if name_eq comp_type (62 ∷ 61 ∷ [])
    then compare_fields greater_than_equals lhs rhs
    else if name_eq comp_type (105 ∷ 115 ∷ [])
    then ok (get_cmp_bool lhs.is_null)
    else if name_eq comp_type (110 ∷ 111 ∷ 116 ∷ [])
    then ok (get_cmp_bool (not lhs.is_null))
    else err logic_error

-- `if (val.CompareEquals(Field(kTypeInt, 1)))`: the enumeration as a condition, of which null is true too
abbrev pub as_condition : CmpBool → Bool
as_condition b = not (cmp_code b == 0)

-- LogicExpression::GetFieldAsCmpBool
unfoldable pub field_as_cmp_bool : Field → Result CmpBool
field_as_cmp_bool val = if val.is_null then ok cmp_null else do
  one ← int_field type_int 1
  same ← compare_fields equals val one
  ok (if as_condition same then cmp_true else cmp_false)

abbrev pub is_false : CmpBool → Bool
is_false b = cmp_code b == 0

abbrev pub is_true : CmpBool → Bool
is_true b = cmp_code b == 1

-- LogicExpression::PerformComputation
unfoldable pub combine : LogicType → CmpBool → CmpBool → CmpBool
combine logic_and l r =
    if is_false l || is_false r
    then cmp_false
    else if is_true l && is_true r
    then cmp_true
    else cmp_null
combine logic_or l r =
    if is_false l && is_false r
    then cmp_false
    else if is_true l || is_true r
    then cmp_true
    else cmp_null

unfoldable pub perform_computation : LogicType → Field → Field → Result CmpBool
perform_computation logic_type lhs rhs = do
  l ← field_as_cmp_bool lhs
  r ← field_as_cmp_bool rhs
  ok (combine logic_type l r)

-- Evaluate, whose column index looks into the one row that is given
unfoldable pub evaluate : Expression → Option Row → Result Field
evaluate (column_value row_idx col_idx type) row = do r ← deref row; get_field r col_idx
evaluate (constant_value val) row = ok val
evaluate (comparison left right comp_type) row = do
  lhs ← evaluate left row
  rhs ← evaluate right row
  b ← perform_comparison comp_type lhs rhs
  int_field type_int (cmp_code b)
evaluate (logic left right logic_type) row = do
  lhs ← evaluate left row
  rhs ← evaluate right row
  b ← perform_computation logic_type lhs rhs
  int_field type_int (cmp_code b)

-- EvaluateJoin
unfoldable pub evaluate_join : Expression → Option Row → Option Row → Result Field
evaluate_join (column_value row_idx col_idx type) left_row right_row = do
  r ← deref (if row_idx == 0 then left_row else right_row)
  get_field r col_idx
evaluate_join (constant_value val) left_row right_row = ok val
evaluate_join (comparison left right comp_type) left_row right_row = do
  lhs ← evaluate_join left left_row right_row
  rhs ← evaluate_join right left_row right_row
  b ← perform_comparison comp_type lhs rhs
  int_field type_int (cmp_code b)
evaluate_join (logic left right logic_type) left_row right_row = do
  lhs ← evaluate_join left left_row right_row
  rhs ← evaluate_join right left_row right_row
  b ← perform_computation logic_type lhs rhs
  int_field type_int (cmp_code b)
