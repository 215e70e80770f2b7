-- ===== src/Executor/Values.antt =====
-- ExecutePlan of a ValuesPlanNode, in executor/execute_engine.cpp and executor/values_executor.cpp.
use wslproject.Base.{
  ℕ, zero, suc, ◌+◌, ◌<◌, ◌≡◌, refl, sym, ap, ◌∙◌, true, false, List, [], ◌∷◌, ◌++◌, Option, some,
  Result, ok, err, ◌>>=◌, Fault, ltb, lt→ltb, le→ltb, if◌then◌else◌, length, get_elem?, arith, ◌⊎◌,
  inl, inr,
}
use mathlib.Core.Path.{subst}
use mathlib.Core.List.{append_assoc, append-nil}
use wslproject.Record.Row.{Row}
use wslproject.Planner.Expressions.{Expression}
use wslproject.Catalog.Manager.{DbErr, db_success, db_failed}
use wslproject.Executor.{
  values_plan, values_executor, create_executor, init, evaluate_all, row_of, next, run_executor,
  is_exception, caught, execute_plan,
}

-- The rows that the lists of expressions stand for, up to the first fault.
unfoldable pub evaluate_rows : List (List Expression) → Result (List Row)
evaluate_rows [] = ok []
evaluate_rows (exprs ∷ values) = do
  fields ← evaluate_all exprs
  rows ← evaluate_rows values
  ok (row_of fields ∷ rows)

Result-cases : {A : Type 0} (r : Result A) → ((f : Fault) × (r ≡ err f)) ⊎ ((a : A) × (r ≡ ok a))
Result-cases (err f) = inl (f, refl)
Result-cases (ok a) = inr (a, refl)

regroup :
    (rows : List Row) (row : Row) (later : Result (List Row))
    → (later >>= λ new. ok (some ((rows ++ (row ∷ [])) ++ new)))
      ≡ ((later >>= λ new. ok (row ∷ new)) >>= λ new. ok (some (rows ++ new)))
regroup rows row (err f) = refl
regroup rows row (ok new) = ap (λ (t : List Row). ok (some t)) (append_assoc rows (row ∷ []) new)

run_values :
    (values todo : List (List Expression)) (rounds cursor : ℕ) (row : Row) (rows : List Row)
    → length todo < rounds
    → length values ≡ cursor + length todo
    → ((i : ℕ) → get_elem? values (cursor + i) ≡ get_elem? todo i)
    → run_executor rounds (values_executor values (length values) cursor) row (some rows)
      ≡ (evaluate_rows todo >>= λ new. ok (some (rows ++ new)))
unfolding run_executor next evaluate_rows
run_values values todo zero cursor row rows h counted same = absurd (omega arith)
run_values values [] (suc rounds) cursor row rows h counted same =
    let past : ltb cursor (length values) ≡ false =
      le→ltb cursor (length values) (omega (arith, counted)) in
    rw past (ap (λ (t : List Row). ok (some t)) (sym (append-nil rows)))
run_values values (exprs ∷ todo) (suc rounds) cursor row rows h counted same =
    let before : ltb cursor (length values) ≡ true =
      lt→ltb cursor (length values) (omega (arith, counted)) in
    rw (before, here)
      (elim (Result-cases (evaluate_all exprs)) [
        | inl (f, fails) ↦ rw fails refl
        | inr (fields, done) ↦ rw done (
            run_values values todo rounds (cursor + 1) (row_of fields)
              (rows ++ (row_of fields ∷ [])) (omega (arith, h)) (omega (arith, counted)) later
            ∙ regroup rows (row_of fields) (evaluate_rows todo))
      ])
  where
    here : get_elem? values cursor ≡ some exprs
    here = subst (λ (t : ℕ). get_elem? values t ≡ some exprs) (omega arith) (same 0)

    later : (i : ℕ) → get_elem? values (cursor + 1 + i) ≡ get_elem? todo i
    later i = subst (λ (t : ℕ). get_elem? values t ≡ get_elem? todo i) (omega arith) (same (suc i))

-- What ExecutePlan answers, with `rows` in the result set before.
abbrev pub outcome : List Row → Result (List Row) → Result (DbErr × Option (List Row))
outcome rows (ok new) = ok (db_success, some (rows ++ new))
outcome rows (err f) = if is_exception f then ok (db_failed, some []) else err f

-- ExecutePlan of a plan of values ends, with more rounds than there are rows, and gives what the rows'
-- expressions stand for: it adds the rows to the result set in their order and succeeds; or, if an
-- expression throws, it clears the result set and fails; any other fault of an expression is its own.
pub execute_plan-evaluate_rows :
    (values : List (List Expression)) (rounds : ℕ) (rows : List Row)
    → length values < rounds
    → execute_plan rounds (values_plan values) (some rows) ≡ outcome rows (evaluate_rows values)
unfolding execute_plan create_executor init caught
execute_plan-evaluate_rows values rounds rows h =
    rw
      (run_values values values rounds 0 (row_of []) rows h (omega arith)
        (λ i. ap (get_elem? values) (omega arith)))
      (answer rows (evaluate_rows values))
  where
    answer :
        (rows : List Row) (r : Result (List Row))
        → caught (some rows) (r >>= λ new. ok (some (rows ++ new))) ≡ outcome rows r
    answer rows (ok new) = refl
    answer rows (err f) = refl
