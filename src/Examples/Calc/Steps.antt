-- ===== src/Examples/Calc/Steps.antt =====
-- examples/Calc/features/step_definitions: the steps of CalculatorSteps.cpp, which read their
-- arguments by `REGEX_PARAM`, and those of FuncArgsCalculatorSteps.cpp, whose bodies have them as
-- parameters. Both are run by GoogleTest, whose `EXPECT_EQ` and the conversion of a text to
-- `double` are arguments.
use cucumber_cpp.Base.{ℕ, Bool, Option, none, List, [], ◌∷◌, Text, codes}
use cucumber_cpp.Expression.Error.{Result, ok, ◌>>=◌}
use cucumber_cpp.Expression.Types.{TypeMap}
use cucumber_cpp.Regex.{RegexEngine}
use cucumber_cpp.Step.Drivers.{gtest}
use cucumber_cpp.Step.Manager.{Registry}
use cucumber_cpp.Commands.{World}
use cucumber_cpp.Step.Body.{Thrown, StepBody}
use cucumber_cpp.Macros.{no_types, one_type, regex_param, given}
use cucumber_cpp.Examples.Scoped.{failed, within_scope}
use cucumber_cpp.Examples.Calc.{Doubles, push, add, divide}
use cucumber_cpp.Examples.Calc as Calc

-- `fromString<double>`: the texts that it converts, and their values; and `EXPECT_EQ`: the text of
-- the failure that it throws, if the values differ.
pub record Checks (d : Doubles) : Type 0 where
  pub is_double : Text → Bool
  pub to_double : Text → d.Double
  pub expect_eq : d.Double → d.Double → Option Text

module _ (d : Doubles) where
  pub record CalcCtx : Type 0 where
    pub calc : Calc.Calculator d
    pub result : d.Double

  -- `CalcCtx()`: an empty calculator, and a result of zero.
  abbrev pub new_ctx : CalcCtx
  new_ctx = record { calc = record { values = [] }; result = d.zero_value }

  -- What the bodies do to the object of their scope.
  module _ (checks : Checks d) where
    unfoldable pub enter_number : Text → CalcCtx → CalcCtx × Option Thrown
    unfolding push
    enter_number n ctx = (record ctx { calc = push d (checks.to_double n) ctx.calc }, none)

    unfoldable pub press_add : CalcCtx → CalcCtx × Option Thrown
    unfolding add
    press_add ctx = (record ctx { result = add d ctx.calc }, none)

    unfoldable pub press_divide : CalcCtx → CalcCtx × Option Thrown
    unfolding divide
    press_divide ctx = (record ctx { result = divide d ctx.calc }, none)

    unfoldable pub check_result : Text → CalcCtx → CalcCtx × Option Thrown
    check_result expected ctx =
        (ctx, failed (checks.expect_eq (checks.to_double expected) ctx.result))

    -- The bodies of CalculatorSteps.cpp; `t` stands for `CalcCtx`.
    module _ (t : ℕ) where
      unfoldable pub have_entered : StepBody (World (ℕ → CalcCtx))
      unfolding regex_param within_scope enter_number
      have_entered = regex_param checks.is_double λ n. within_scope t new_ctx (enter_number n)

      unfoldable pub i_press_add : StepBody (World (ℕ → CalcCtx))
      unfolding within_scope press_add
      i_press_add = within_scope t new_ctx press_add

      unfoldable pub i_press_divide : StepBody (World (ℕ → CalcCtx))
      unfolding within_scope press_divide
      i_press_divide = within_scope t new_ctx press_divide

      unfoldable pub result_should_be : StepBody (World (ℕ → CalcCtx))
      unfolding regex_param within_scope check_result
      result_should_be =
          regex_param checks.is_double λ expected. within_scope t new_ctx (check_result expected)

      -- The bodies of FuncArgsCalculatorSteps.cpp, on their arguments.
      abbrev pub with_first :
          (Text → StepBody (World (ℕ → CalcCtx))) → List Text → StepBody (World (ℕ → CalcCtx))
      with_first body [] = body []
      with_first body (arg ∷ args) = body arg

      unfoldable pub have_entered_arg : List Text → StepBody (World (ℕ → CalcCtx))
      unfolding within_scope enter_number
      have_entered_arg = with_first λ n. within_scope t new_ctx (enter_number n)

      unfoldable pub result_should_be_arg : List Text → StepBody (World (ℕ → CalcCtx))
      unfolding within_scope check_result
      result_should_be_arg = with_first λ expected. within_scope t new_ctx (check_result expected)

    -- The two files; a file registers its steps in the order of its lines.
    module _ (t : ℕ) (engine : RegexEngine) (types : TypeMap) where
      abbrev pub Registered : Type 0
      Registered = Result (Registry (World (ℕ → CalcCtx)))

      unfoldable pub register_calculator_steps : Text → Registry (World (ℕ → CalcCtx)) → Registered
      register_calculator_steps file m = do
        (m1, id1) ←
            given engine types gtest file 12 (codes "^I have entered (\\d+) into the calculator$")
              no_types (λ args. have_entered t) m
        (m2, id2) ←
            given engine types gtest file 19 (codes "^I press add") no_types (λ args. i_press_add t)
              m1
        (m3, id3) ←
            given engine types gtest file 25 (codes "^I press divide") no_types
              (λ args. i_press_divide t) m2
        (m4, id4) ←
            given engine types gtest file 31 (codes "^the result should be (.*) on the screen$")
              no_types (λ args. result_should_be t) m3
        ok m4

      unfoldable pub register_func_args_calculator_steps :
          Text → Registry (World (ℕ → CalcCtx)) → Registered
      register_func_args_calculator_steps file m = do
        (m1, id1) ←
            given engine types gtest file 13 (codes "^I have entered (\\d+) into the calculator$")
              (one_type checks.is_double) (have_entered_arg t) m
        (m2, id2) ←
            given engine types gtest file 19 (codes "^I press add") no_types (λ args. i_press_add t)
              m1
        (m3, id3) ←
            given engine types gtest file 25 (codes "^I press divide") no_types
              (λ args. i_press_divide t) m2
        (m4, id4) ←
            given engine types gtest file 31 (codes "^the result should be (.*) on the screen$")
              (one_type checks.is_double) (result_should_be_arg t) m3
        ok m4
