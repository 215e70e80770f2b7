-- ===== src/Tests/Planner.antt =====
-- `id < 5 and id = 3` on a row of one number (include/planner/expressions/).
use wslproject.Base.{◌≡◌, ◌≢◌, refl, sym, ◌∙◌, arith, false, [], ◌∷◌, some}
use wslproject.Record.Types.{Field, type_char, type_int, type_invalid, cmp_null, cmp_true}
use wslproject.Record.Schema.{name_eq}
use wslproject.Record.Row.{Row, invalid_rowid, get_field}
use wslproject.Planner.Expressions.{
  Expression, column_value, constant_value, comparison, logic, logic_and, logic_or, return_type,
  evaluate, evaluate_join, combine, new_logic,
}
use wslproject.Planner.Expressions.Logic.{
  side_by_side, on_joined, rank, smaller, larger, combine-rank, evaluate_join-evaluate,
}
use wslproject.Planner.Expressions.Typing.{Readable, WellTyped, Yields, evaluate-Yields}

abbrev three : Field
three = record { type_id = type_int; len = 4; is_null = false; bits = 3; chars = [] }

abbrev five : Field
five = record { type_id = type_int; len = 4; is_null = false; bits = 5; chars = [] }

abbrev row : Row
row = record { rid = invalid_rowid; fields = three ∷ [] }

abbrev id_column : Expression
id_column = column_value 0 0 type_int

abbrev condition : Expression
condition =
    logic (comparison id_column (constant_value five) (60 ∷ []))
      (comparison id_column (constant_value three) (61 ∷ [])) logic_and

int-valid : type_int ≢ type_invalid
int-valid = λ h. cc

int-Readable : (f : Field) → f.type_id ≡ type_int → Readable f
int-Readable f typed text = absurd (clash (sym typed ∙ text))
  where
    clash : type_int ≡ type_char → ⊥
    clash h = cc

condition-WellTyped : WellTyped row condition
unfolding get_field name_eq new_logic
condition-WellTyped = (
  (
    (int-valid, three, refl, refl, int-Readable three refl),
    (int-valid, int-Readable five refl),
    refl,
    refl,
  ),
  (
    (int-valid, three, refl, refl, int-Readable three refl),
    (int-valid, int-Readable three refl),
    refl,
    refl,
  ),
  refl,
)

evaluate-Yields_example : Yields (return_type condition) (evaluate condition (some row))
evaluate-Yields_example = evaluate-Yields condition row condition-WellTyped

-- `id < 5`, and the column of the row on the right is the number 3.
abbrev join_condition : Expression
join_condition =
    logic (comparison id_column (constant_value five) (60 ∷ []))
      (comparison (column_value 1 0 type_int) (constant_value three) (61 ∷ [])) logic_and

evaluate_join-evaluate_example :
    evaluate_join join_condition (some row) (some row)
    ≡ evaluate (on_joined 1 join_condition) (some (side_by_side row row))
evaluate_join-evaluate_example =
    evaluate_join-evaluate join_condition row row
      (((λ e. omega arith), tt), ((λ e. absurd (omega (arith, e))), tt))

combine-rank_example :
    (rank (combine logic_and cmp_null cmp_true) ≡ smaller (rank cmp_null) (rank cmp_true))
    × (rank (combine logic_or cmp_null cmp_true) ≡ larger (rank cmp_null) (rank cmp_true))
combine-rank_example = combine-rank cmp_null cmp_true
