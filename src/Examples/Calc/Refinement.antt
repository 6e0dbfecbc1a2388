-- ===== src/Examples/Calc/Refinement.antt =====
-- Each registered step of the calculator does what the machine does to the current object.
use cucumber_cpp.Base.{
  ℕ, ◌≡◌, ◌∙◌, refl, ap, subst, Bool-cases, inl, inr, Option, none, some, List, [], ◌∷◌, Text,
}
use cucumber_cpp.Commands.{World}
use cucumber_cpp.Step.Body.{InvokeArgs, InvokeResult, StepBody}
use cucumber_cpp.Step.Drivers.{gtest}
use cucumber_cpp.Step.Invoke.{invoke}
use cucumber_cpp.Macros.Arguments.{invoke-no_types, invoke-one_type}
use cucumber_cpp.Examples.Scoped.{failed}
use cucumber_cpp.Examples.Scoped.Object.{current}
use cucumber_cpp.Examples.Scoped.Invocation.{
  ending, Invokes, invoke-within_scope, invoke-regex_param, invoke_unconverted,
}
use cucumber_cpp.Examples.Calc.{Doubles, sum_from, add, divide_from, divide}
use cucumber_cpp.Examples.Calc.Steps.{
  Checks, CalcCtx, new_ctx, enter_number, press_add, press_divide, check_result, have_entered,
  i_press_add, i_press_divide, result_should_be, have_entered_arg, result_should_be_arg,
}
use cucumber_cpp.Examples.Calc.Machine.{
  CalcStep, enter, press_plus, press_by, expect, calc_step, expected, folded, quotient,
}
use cucumber_cpp.Examples.Calc.Feature.{Style, by_macro, by_parameter, args_of, info_of}

module _ (d : Doubles) (checks : Checks d) (t : ℕ) where
  -- A body that is registered, as one that gives the same result and the same state.
  Invokes-same :
      (body body' : StepBody (World (ℕ → CalcCtx d))) (args : InvokeArgs)
      (w : World (ℕ → CalcCtx d)) {result : InvokeResult} {x : CalcCtx d}
      → invoke gtest body args w ≡ invoke gtest body' args w
      → Invokes t (new_ctx d) body' args w result x
      → Invokes t (new_ctx d) body args w result x
  Invokes-same body body' args w same h = record {
    behind = h.behind;
    invoked = same ∙ h.invoked;
    uses = h.uses;
  }

  abbrev pub Ends :
      StepBody (World (ℕ → CalcCtx d))
      → InvokeArgs
      → World (ℕ → CalcCtx d)
      → InvokeResult × CalcCtx d
      → Type 0
  Ends body args w (result, x) = Invokes t (new_ctx d) body args w result x

  ending-failed : (o : Option Text) → ending (failed o) ≡ expected d checks o
  ending-failed none = refl
  ending-failed (some what) = refl

  have_entered-Ends :
      (n : Text) (args : InvokeArgs) (w : World (ℕ → CalcCtx d))
      → args.args ≡ n ∷ []
      → Ends
          (have_entered d checks t)
          args
          w
          (calc_step d checks (enter n) (current t (new_ctx d) w))
  unfolding have_entered enter_number
  have_entered-Ends n args w taken = elim (Bool-cases (checks.is_double n)) [
    | inl good ↦ rw good (
        invoke-regex_param t (new_ctx d) checks.is_double (enter_number d checks) args n w taken
          good)
    | inr bad ↦ rw bad (
        invoke_unconverted t (new_ctx d) checks.is_double (enter_number d checks) args n w taken
          bad)
  ]

  result_should_be-Ends :
      (n : Text) (args : InvokeArgs) (w : World (ℕ → CalcCtx d))
      → args.args ≡ n ∷ []
      → Ends
          (result_should_be d checks t)
          args
          w
          (calc_step d checks (expect n) (current t (new_ctx d) w))
  unfolding result_should_be check_result
  result_should_be-Ends n args w taken = elim (Bool-cases (checks.is_double n)) [
    | inl good ↦
        rw (good, ← ending-failed _)
          (invoke-regex_param t (new_ctx d) checks.is_double (check_result d checks) args n w taken
            good)
    | inr bad ↦ rw bad (
        invoke_unconverted t (new_ctx d) checks.is_double (check_result d checks) args n w taken
          bad)
  ]

  sum_from-folded :
      (x : d.Double) (values : List d.Double) → sum_from d x values ≡ folded d.plus x values
  unfolding sum_from
  sum_from-folded x [] = refl
  sum_from-folded x (y ∷ rest) = sum_from-folded (d.plus x y) rest

  divide_from-folded :
      (x : d.Double) (values : List d.Double)
      → divide_from d x values ≡ folded d.divided_by x values
  unfolding divide_from
  divide_from-folded x [] = refl
  divide_from-folded x (y ∷ rest) = divide_from-folded (d.divided_by x y) rest

  press_add-folded :
      (ctx : CalcCtx d)
      → press_add d checks ctx
        ≡ (record ctx { result = folded d.plus d.zero_value ctx.calc.values }, none)
  unfolding press_add add
  press_add-folded ctx =
      ap (λ x. (record ctx { result = x }, none)) (sum_from-folded d.zero_value ctx.calc.values)

  press_divide-quotient :
      (ctx : CalcCtx d)
      → press_divide d checks ctx
        ≡ (record ctx { result = quotient d checks ctx.calc.values }, none)
  unfolding press_divide divide
  press_divide-quotient ctx = ap (λ x. (record ctx { result = x }, none)) (same ctx.calc.values)
    where
      same :
          (values : List d.Double)
          → divide d (record { values = values }) ≡ quotient d checks values
      same [] = refl
      same (x ∷ rest) = divide_from-folded x rest

  -- The registered body, as the body of CalculatorSteps.cpp that it does the same as.
  abbrev macro_body : CalcStep → StepBody (World (ℕ → CalcCtx d))
  macro_body (enter n) = have_entered d checks t
  macro_body press_plus = i_press_add d checks t
  macro_body press_by = i_press_divide d checks t
  macro_body (expect n) = result_should_be d checks t

  macro_body-Ends :
      (step : CalcStep) (args : InvokeArgs) (w : World (ℕ → CalcCtx d))
      → args.args ≡ args_of step
      → Ends (macro_body step) args w (calc_step d checks step (current t (new_ctx d) w))
  unfolding i_press_add i_press_divide
  macro_body-Ends (enter n) args w taken = have_entered-Ends n args w taken
  macro_body-Ends press_plus args w taken =
      subst (λ q. Ends (i_press_add d checks t) args w (ending q.1, q.0))
        (press_add-folded (current t (new_ctx d) w))
        (invoke-within_scope t (new_ctx d) (press_add d checks) args w)
  macro_body-Ends press_by args w taken =
      subst (λ q. Ends (i_press_divide d checks t) args w (ending q.1, q.0))
        (press_divide-quotient (current t (new_ctx d) w))
        (invoke-within_scope t (new_ctx d) (press_divide d checks) args w)
  macro_body-Ends (expect n) args w taken = result_should_be-Ends n args w taken

  invoke_same :
      (style : Style) (file : Text) (step : CalcStep) (args : InvokeArgs)
      (w : World (ℕ → CalcCtx d))
      → invoke gtest (info_of d checks t style file step).body args w
        ≡ invoke gtest (macro_body step) args w
  unfolding have_entered_arg result_should_be_arg have_entered result_should_be
  invoke_same by_macro file (enter n) args w =
      invoke-no_types (λ rest. have_entered d checks t) args w
  invoke_same by_macro file press_plus args w =
      invoke-no_types (λ rest. i_press_add d checks t) args w
  invoke_same by_macro file press_by args w =
      invoke-no_types (λ rest. i_press_divide d checks t) args w
  invoke_same by_macro file (expect n) args w =
      invoke-no_types (λ rest. result_should_be d checks t) args w
  invoke_same by_parameter file (enter n) args w =
      invoke-one_type checks.is_double (have_entered_arg d checks t) args w
  invoke_same by_parameter file press_plus args w =
      invoke-no_types (λ rest. i_press_add d checks t) args w
  invoke_same by_parameter file press_by args w =
      invoke-no_types (λ rest. i_press_divide d checks t) args w
  invoke_same by_parameter file (expect n) args w =
      invoke-one_type checks.is_double (result_should_be_arg d checks t) args w

  pub info-Ends :
      (style : Style) (file : Text) (step : CalcStep) (args : InvokeArgs)
      (w : World (ℕ → CalcCtx d))
      → args.args ≡ args_of step
      → Ends
          (info_of d checks t style file step).body
          args
          w
          (calc_step d checks step (current t (new_ctx d) w))
  info-Ends style file step args w taken =
      Invokes-same _ (macro_body step) args w (invoke_same style file step args w)
        (macro_body-Ends step args w taken)
