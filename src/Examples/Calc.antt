-- ===== src/Examples/Calc.antt =====
-- examples/Calc/src/Calculator.cpp, over the arithmetic of `double`, which is an argument.
pub mod Steps
pub mod Machine
pub mod Feature
pub mod Refinement
pub mod Session
mod Tests
use cucumber_cpp.Base.{◌≡◌, refl, List, [], ◌∷◌, ◌++◌}

-- What the calculator uses of `double`.
pub record Doubles : Type 1 where
  pub Double : Type 0
  pub zero_value : Double
  pub quiet_nan : Double
  pub plus : Double → Double → Double
  pub divided_by : Double → Double → Double

module _ (d : Doubles) where
  pub record Calculator : Type 0 where
    pub values : List d.Double

  unfoldable pub push : d.Double → Calculator → Calculator
  push n c = record c { values = c.values ++ n ∷ [] }

  -- The loop of `add`, from the sum so far.
  unfoldable pub sum_from : d.Double → List d.Double → d.Double
  sum_from result [] = result
  sum_from result (n ∷ values) = sum_from (d.plus result n) values

  unfoldable pub add : Calculator → d.Double
  unfolding sum_from
  add c = sum_from d.zero_value c.values

  -- The loop of `divide` behind the first value.
  unfoldable pub divide_from : d.Double → List d.Double → d.Double
  divide_from result [] = result
  divide_from result (n ∷ values) = divide_from (d.divided_by result n) values

  unfoldable pub divide : Calculator → d.Double
  unfolding divide_from
  divide c = elim c.values [ [] ↦ d.quiet_nan | n ∷ values ↦ divide_from n values ]

  sum_from-append :
      (result n : d.Double) (values : List d.Double)
      → sum_from result (values ++ n ∷ []) ≡ d.plus (sum_from result values) n
  unfolding sum_from
  sum_from-append result n [] = refl
  sum_from-append result n (m ∷ values) = sum_from-append (d.plus result m) n values

  divide_from-append :
      (result n : d.Double) (values : List d.Double)
      → divide_from result (values ++ n ∷ []) ≡ d.divided_by (divide_from result values) n
  unfolding divide_from
  divide_from-append result n [] = refl
  divide_from-append result n (m ∷ values) = divide_from-append (d.divided_by result m) n values

  -- A value that is entered is added to the sum of those before; it is the quotient if it is the
  -- first one, and divides the quotient of those before if not.
  pub push_lem :
      (n : d.Double) (c : Calculator)
      → (add (push n c) ≡ d.plus (add c) n)
        × (divide (push n c) ≡ elim c.values [ [] ↦ n | m ∷ values ↦ d.divided_by (divide c) n ])
  unfolding add divide push
  push_lem n c = (
    sum_from-append d.zero_value n c.values,
    elim c.values
        as (λ values.
          let c' : Calculator = record { values = values } in
          divide (push n c') ≡ elim values [ [] ↦ n | m ∷ rest ↦ d.divided_by (divide c') n ]) [
            | [] ↦ refl
            | m ∷ values ↦ divide_from-append m n values
          ],
  )
