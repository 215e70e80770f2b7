-- ===== src/Tests/Executor.antt =====
-- A plan of two rows of values (executor/execute_engine.cpp).
use wslproject.Base.{◌≡◌, List, [], ◌∷◌, some, ok, refl, arith}
use wslproject.Planner.Expressions.{Expression, constant_value, evaluate}
use wslproject.Executor.{
  values_plan, execute_plan, row_of, create_executor, init, run_executor, next, caught,
  evaluate_all,
}
use wslproject.Executor.Values.{evaluate_rows, outcome, execute_plan-evaluate_rows}
use wslproject.Catalog.Manager.{db_success}
use wslproject.Tests.Record.{int_of}

abbrev two_rows : List (List Expression)
two_rows = (constant_value (int_of 7) ∷ []) ∷ (constant_value (int_of 8) ∷ []) ∷ []

execute_plan-evaluate_rows_example :
    execute_plan 3 (values_plan two_rows) (some []) ≡ outcome [] (evaluate_rows two_rows)
execute_plan-evaluate_rows_example = execute_plan-evaluate_rows two_rows 3 [] (omega arith)

plan_runs :
    execute_plan 3 (values_plan two_rows) (some [])
    ≡ ok (db_success, some (row_of (int_of 7 ∷ []) ∷ row_of (int_of 8 ∷ []) ∷ []))
unfolding execute_plan create_executor init run_executor next caught evaluate_all evaluate
plan_runs = refl
