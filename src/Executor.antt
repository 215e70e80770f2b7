-- ===== src/Executor.antt =====
-- executor/execute_engine.cpp, CreateExecutor and ExecutePlan, and the executors of executor/. Of these
-- only ValuesExecutor yields rows: the others are stubs in the source, and their children are never run.
pub mod Values
use wslproject.Base.{
  ℕ, zero, suc, ◌+◌, Bool, true, false, List, [], ◌∷◌, ◌++◌, Option, none, some, Result, ok, err,
  ◌>>=◌, Fault, logic_error, out_of_range, out_of_rounds, ltb, if◌then◌else◌, length, get_elem?,
}
use wslproject.Record.Types.{Field}
use wslproject.Record.Row.{Row, invalid_rowid}
use wslproject.Planner.Expressions.{Expression, evaluate}
use wslproject.Catalog.Manager.{DbErr, db_success, db_failed}

-- A plan, as far as CreateExecutor looks at it; `other_plan` is one of a type that it does not know.
pub data Plan : Type 0 where
  seq_scan_plan index_scan_plan other_plan : Plan
  update_plan delete_plan insert_plan : Plan → Plan
  values_plan : List (List Expression) → Plan

pub data Executor : Type 0 where
  seq_scan_executor index_scan_executor : Executor
  update_executor delete_executor insert_executor : Executor → Executor
  values_executor : (values : List (List Expression)) (value_size cursor : ℕ) → Executor

-- CreateExecutor
unfoldable pub create_executor : Plan → Result Executor
create_executor seq_scan_plan = ok seq_scan_executor
create_executor index_scan_plan = ok index_scan_executor
create_executor other_plan = err logic_error
create_executor (update_plan child) = do e ← create_executor child; ok (update_executor e)
create_executor (delete_plan child) = do e ← create_executor child; ok (delete_executor e)
create_executor (insert_plan child) = do e ← create_executor child; ok (insert_executor e)
create_executor (values_plan values) = ok (values_executor values 0 0)

-- Init
unfoldable pub init : Executor → Executor
init (values_executor values value_size cursor) = values_executor values (length values) cursor
init seq_scan_executor = seq_scan_executor
init index_scan_executor = index_scan_executor
init (update_executor child) = update_executor child
init (delete_executor child) = delete_executor child
init (insert_executor child) = insert_executor child

-- The loop of ValuesExecutor::Next over the expressions of a row.
unfoldable pub evaluate_all : List Expression → Result (List Field)
evaluate_all [] = ok []
evaluate_all (expr ∷ exprs) = do
  value ← evaluate expr none
  values ← evaluate_all exprs
  ok (value ∷ values)

-- `Row{values}`
abbrev pub row_of : List Field → Row
row_of values = record { rid = invalid_rowid; fields = values }

-- The expressions of the row at the cursor, by std::vector::at.
abbrev pub exprs_at : Option (List Expression) → Result (List Expression)
exprs_at none = err out_of_range
exprs_at (some exprs) = ok exprs

-- Next: the executor, the row, and the answer.
unfoldable pub next : Executor → Row → Result (Executor × Row × Bool)
next (values_executor values value_size cursor) row =
    if ltb cursor value_size
    then (do
      exprs ← exprs_at (get_elem? values cursor)
      fields ← evaluate_all exprs
      ok (values_executor values value_size (cursor + 1), row_of fields, true))
    else ok (values_executor values value_size cursor, row, false)
next seq_scan_executor row = ok (seq_scan_executor, row, false)
next index_scan_executor row = ok (index_scan_executor, row, false)
next (update_executor child) row = ok (update_executor child, row, false)
next (delete_executor child) row = ok (delete_executor child, row, false)
next (insert_executor child) row = ok (insert_executor child, row, false)

-- `result_set->push_back(row)`, unless the pointer is null
abbrev pub push_back : Option (List Row) → Row → Option (List Row)
push_back none row = none
push_back (some rows) row = some (rows ++ (row ∷ []))

-- The loop of ExecutePlan, for at most `rounds` calls of Next.
unfoldable pub run_executor : ℕ → Executor → Row → Option (List Row) → Result (Option (List Row))
run_executor zero executor row result_set = err out_of_rounds
run_executor (suc rounds) executor row result_set = do
  (after, next_row, more) ← next executor row
  let rest : Result (Option (List Row)) =
      run_executor rounds after next_row (push_back result_set next_row)
  if more then rest else ok result_set

-- The faults that are exceptions of C++.
abbrev pub is_exception : Fault → Bool
is_exception logic_error = true
is_exception out_of_range = true
is_exception fault = false

-- `result_set->clear()`, unless the pointer is null
abbrev pub clear : Option (List Row) → Option (List Row)
clear none = none
clear (some rows) = some []

-- The try block and its catch clause.
unfoldable pub caught :
    Option (List Row) → Result (Option (List Row)) → Result (DbErr × Option (List Row))
caught result_set (ok rows) = ok (db_success, rows)
caught result_set (err fault) =
    if is_exception fault then ok (db_failed, clear result_set) else err fault

-- ExecutePlan
unfoldable pub execute_plan : ℕ → Plan → Option (List Row) → Result (DbErr × Option (List Row))
execute_plan rounds plan result_set = do
  executor ← create_executor plan
  caught result_set (run_executor rounds (init executor) (row_of []) result_set)
