-- ===== src/Planner/Expressions/Logic.antt =====
-- Truth values of expressions (include/planner/expressions/).
use wslproject.Base.{
  ℕ, zero, suc, ◌+◌, ◌<◌, ◌≡◌, refl, sym, ap, ◌∙◌, List, [], ◌∷◌, ◌++◌, Option, none, some, Result,
  ok, err, assertion, ◌>>=◌, if◌then◌else◌, ◌==◌, leb, length, get_elem?, arith, Bool-cases, inl,
  inr,
}
use wslproject.Record.Types.{
  CmpBool, cmp_true, cmp_false, cmp_null, cmp_code, Field, int_field, type_int, compare_as,
}
use wslproject.Record.Row.{Row, get_field}
use wslproject.Planner.Expressions.{
  logic_and, logic_or, Expression, column_value, constant_value, comparison, logic,
  field_as_cmp_bool, combine, is_true, evaluate, evaluate_join,
}

-- The order of the truth values in three-valued logic: false, unknown, true.
abbrev pub rank : CmpBool → ℕ
rank cmp_false = 0
rank cmp_null = 1
rank cmp_true = 2

abbrev pub smaller : ℕ → ℕ → ℕ
smaller a b = if leb a b then a else b

abbrev pub larger : ℕ → ℕ → ℕ
larger a b = if leb a b then b else a

-- "and" and "or" are those of three-valued logic: the lower and the higher of two truth values in the
-- order false, unknown, true.
pub combine-rank :
    (l r : CmpBool)
    → (rank (combine logic_and l r) ≡ smaller (rank l) (rank r))
      × (rank (combine logic_or l r) ≡ larger (rank l) (rank r))
unfolding combine
combine-rank cmp_false cmp_false = (refl, refl)
combine-rank cmp_false cmp_true = (refl, refl)
combine-rank cmp_false cmp_null = (refl, refl)
combine-rank cmp_true cmp_false = (refl, refl)
combine-rank cmp_true cmp_true = (refl, refl)
combine-rank cmp_true cmp_null = (refl, refl)
combine-rank cmp_null cmp_false = (refl, refl)
combine-rank cmp_null cmp_true = (refl, refl)
combine-rank cmp_null cmp_null = (refl, refl)

-- The answer of a comparison, stored as a number and read as a truth value by "and" and "or", is true if
-- the comparison answered true, and false if it answered false or null.
pub field_as_cmp_bool-int_field :
    (b : CmpBool)
    → (int_field type_int (cmp_code b) >>= field_as_cmp_bool)
      ≡ ok (if is_true b then cmp_true else cmp_false)
unfolding int_field field_as_cmp_bool compare_as
field_as_cmp_bool-int_field cmp_false = refl
field_as_cmp_bool-int_field cmp_true = refl
field_as_cmp_bool-int_field cmp_null = refl

-- The two rows side by side, and an expression on it that names the columns of the right row behind those
-- of the left one.
abbrev pub side_by_side : Row → Row → Row
side_by_side left_row right_row = record left_row { fields = left_row.fields ++ right_row.fields }

unfoldable pub on_joined : ℕ → Expression → Expression
on_joined width (column_value row_idx col_idx type) =
    column_value 0 (if row_idx == 0 then col_idx else width + col_idx) type
on_joined width (constant_value val) = constant_value val
on_joined width (comparison left right comp_type) =
    comparison (on_joined width left) (on_joined width right) comp_type
on_joined width (logic left right logic_type) =
    logic (on_joined width left) (on_joined width right) logic_type

-- The columns that are named of the left row are among its `width` columns.
abbrev pub InLeft : ℕ → Expression → Type 0
InLeft width (column_value row_idx col_idx type) = row_idx ≡ 0 → col_idx < width
InLeft width (constant_value val) = Unit {0}
InLeft width (comparison left right comp_type) = InLeft width left × InLeft width right
InLeft width (logic left right logic_type) = InLeft width left × InLeft width right

get_elem?-append_left :
    (xs ys : List Field) (i : ℕ) → i < length xs → get_elem? (xs ++ ys) i ≡ get_elem? xs i
get_elem?-append_left [] ys i h = absurd (omega arith)
get_elem?-append_left (x ∷ xs) ys zero h = refl
get_elem?-append_left (x ∷ xs) ys (suc i) h = get_elem?-append_left xs ys i (omega arith)

get_elem?-append_right :
    (xs ys : List Field) (i : ℕ) → get_elem? (xs ++ ys) (length xs + i) ≡ get_elem? ys i
get_elem?-append_right [] ys i = ap (get_elem? ys) (omega arith)
get_elem?-append_right (x ∷ xs) ys i =
    let next : suc (length xs) + i ≡ suc (length xs + i) = omega arith in
    ap (get_elem? (x ∷ (xs ++ ys))) next ∙ get_elem?-append_right xs ys i

get_field-same :
    (a b : Row) (i j : ℕ)
    → get_elem? a.fields i ≡ get_elem? b.fields j
    → get_field a i ≡ get_field b j
unfolding get_field
get_field-same a b i j e =
    ap
      (λ (t : Option Field). elim t as (λ _. Result Field) [ none ↦ err assertion | some f ↦ ok f ])
      e

-- EvaluateJoin on two rows is Evaluate on the rows side by side, where the columns of the right row stand
-- behind those of the left one, if the columns that are named of the left row are there.
pub evaluate_join-evaluate :
    (e : Expression) (left_row right_row : Row)
    → InLeft (length left_row.fields) e
    → evaluate_join e (some left_row) (some right_row)
      ≡ evaluate (on_joined (length left_row.fields) e) (some (side_by_side left_row right_row))
unfolding evaluate_join evaluate on_joined
evaluate_join-evaluate (column_value row_idx col_idx type) left_row right_row inside =
    elim (Bool-cases (row_idx == 0)) [
      | inl left ↦
          let there : row_idx ≡ 0 = ground arith in
          let same =
            get_elem?-append_left left_row.fields right_row.fields col_idx (inside there) in
          rw left
            (get_field-same left_row (side_by_side left_row right_row) col_idx col_idx (sym same))
      | inr right ↦
          let same = get_elem?-append_right left_row.fields right_row.fields col_idx in
          rw right (
            get_field-same right_row (side_by_side left_row right_row) col_idx
              (length left_row.fields + col_idx) (sym same))
    ]
evaluate_join-evaluate (constant_value val) left_row right_row inside = refl
evaluate_join-evaluate (comparison left right comp_type) left_row right_row inside =
    rw
      (
        evaluate_join-evaluate left left_row right_row inside.0,
        evaluate_join-evaluate right left_row right_row inside.1,
      )
      refl
evaluate_join-evaluate (logic left right logic_type) left_row right_row inside =
    rw
      (
        evaluate_join-evaluate left left_row right_row inside.0,
        evaluate_join-evaluate right left_row right_row inside.1,
      )
      refl
