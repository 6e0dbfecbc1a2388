-- ===== src/Examples/Calc/Feature.antt =====
-- The registered steps of the calculator, run in the program's state, against the machine.
use cucumber_cpp.Base.{ℕ, ◌≡◌, refl, none, some, List, [], ◌∷◌, Text, codes}
use cucumber_cpp.Expression.Error.{Result, ok}
use cucumber_cpp.Expression.Types.{TypeMap}
use cucumber_cpp.Regex.{RegexEngine}
use cucumber_cpp.Commands.{World}
use cucumber_cpp.Step.Body.{StepBody}
use cucumber_cpp.Step.Drivers.{gtest}
use cucumber_cpp.Step.Manager.{StepInfo, Registry, to_source_string, add_step, get_step}
use cucumber_cpp.Macros.{ArgTypes, no_types, one_type, cuke_object}
use cucumber_cpp.Macros.Registration.{empty_registry, given_plain}
use cucumber_cpp.Examples.Calc.{Doubles}
use cucumber_cpp.Examples.Calc.Steps.{
  Checks, CalcCtx, have_entered, i_press_add, i_press_divide, result_should_be, have_entered_arg,
  result_should_be_arg, register_calculator_steps, register_func_args_calculator_steps,
}
use cucumber_cpp.Examples.Calc.Machine.{CalcStep, enter, press_plus, press_by, expect}

-- The two files of step definitions.
pub data Style : Type 0 where
  by_macro by_parameter : Style

abbrev pub matcher_of : CalcStep → Text
matcher_of (enter n) = codes "^I have entered (\\d+) into the calculator$"
matcher_of press_plus = codes "^I press add"
matcher_of press_by = codes "^I press divide"
matcher_of (expect n) = codes "^the result should be (.*) on the screen$"

abbrev pub id_of : CalcStep → ℕ
id_of (enter n) = 1
id_of press_plus = 2
id_of press_by = 3
id_of (expect n) = 4

abbrev line_of : Style → CalcStep → ℕ
line_of by_macro (enter n) = 12
line_of by_parameter (enter n) = 13
line_of style press_plus = 19
line_of style press_by = 25
line_of style (expect n) = 31

abbrev pub args_of : CalcStep → List Text
args_of (enter n) = n ∷ []
args_of press_plus = []
args_of press_by = []
args_of (expect n) = n ∷ []

module _ (d : Doubles) (checks : Checks d) (t : ℕ) where
  abbrev types_of : Style → CalcStep → ArgTypes
  types_of by_macro step = no_types
  types_of by_parameter (enter n) = one_type checks.is_double
  types_of by_parameter press_plus = no_types
  types_of by_parameter press_by = no_types
  types_of by_parameter (expect n) = one_type checks.is_double

  abbrev body_of : Style → CalcStep → List Text → StepBody (World (ℕ → CalcCtx d))
  body_of by_macro (enter n) args = have_entered d checks t
  body_of by_parameter (enter n) args = have_entered_arg d checks t args
  body_of style press_plus args = i_press_add d checks t
  body_of style press_by args = i_press_divide d checks t
  body_of by_macro (expect n) args = result_should_be d checks t
  body_of by_parameter (expect n) args = result_should_be_arg d checks t args

  -- The registered step behind a line of a feature.
  abbrev pub info_of : Style → Text → CalcStep → StepInfo (World (ℕ → CalcCtx d))
  info_of style file step = record {
    id = id_of step;
    regex = matcher_of step;
    source = to_source_string file (line_of style step);
    step_def = matcher_of step;
    driver = gtest;
    body = cuke_object (types_of style step) (body_of style step);
  }

  module _ (engine : RegexEngine) (types : TypeMap) (file : Text) where
    abbrev pub register_steps :
        Style → Registry (World (ℕ → CalcCtx d)) → Result (Registry (World (ℕ → CalcCtx d)))
    register_steps by_macro m = register_calculator_steps d checks t engine types file m
    register_steps by_parameter m =
        register_func_args_calculator_steps d checks t engine types file m

    abbrev pub calc_registry : Style → Registry (World (ℕ → CalcCtx d))
    calc_registry style = record {
      current_id = 4;
      steps =
          info_of style file (enter [])
          ∷ info_of style file press_plus
          ∷ info_of style file press_by
          ∷ info_of style file (expect [])
          ∷ [];
    }

    pub registered :
        (style : Style)
        → ((step : CalcStep) → engine.regex_error (matcher_of step) ≡ none)
        → register_steps style empty_registry ≡ ok (calc_registry style)
    unfolding register_calculator_steps register_func_args_calculator_steps add_step
    registered by_macro good =
        rw
          (
            given_plain engine types gtest file 12 no_types _ _ (good (enter [])),
            given_plain engine types gtest file 19 no_types _ _ (good press_plus),
            given_plain engine types gtest file 25 no_types _ _ (good press_by),
            given_plain engine types gtest file 31 no_types _ _ (good (expect [])),
          )
          refl
    registered by_parameter good =
        rw
          (
            given_plain engine types gtest file 13 (one_type checks.is_double) _ _
                (good (enter [])),
            given_plain engine types gtest file 19 no_types _ _ (good press_plus),
            given_plain engine types gtest file 25 no_types _ _ (good press_by),
            given_plain engine types gtest file 31 (one_type checks.is_double) _ _
                (good (expect [])),
          )
          refl

    pub found :
        (style : Style) (step : CalcStep)
        → get_step (id_of step) (calc_registry style).steps ≡ some (info_of style file step)
    unfolding get_step
    found by_macro (enter n) = refl
    found by_macro press_plus = refl
    found by_macro press_by = refl
    found by_macro (expect n) = refl
    found by_parameter (enter n) = refl
    found by_parameter press_plus = refl
    found by_parameter press_by = refl
    found by_parameter (expect n) = refl
