-- ===== src/Examples/Calc/Machine.antt =====
-- The calculator's steps without scopes, step objects or registrations: what a scenario of such
-- steps does to one object, and the results of its steps.
use cucumber_cpp.Base.{Option, none, some, List, [], ◌∷◌, ◌++◌, if◌then◌else◌, Text, codes}
use cucumber_cpp.Step.Body.{InvokeResult, success_result, failure_result}
use cucumber_cpp.Examples.Calc.{Doubles}
use cucumber_cpp.Examples.Calc.Steps.{Checks, CalcCtx}

-- The lines of a feature: numbers are texts.
pub data CalcStep : Type 0 where
  enter : Text → CalcStep
  press_plus press_by : CalcStep
  expect : Text → CalcStep

-- The values from left to right, behind a first one.
abbrev pub folded : {D : Type 0} → (D → D → D) → D → List D → D
folded op x [] = x
folded op x (y ∷ rest) = folded op (op x y) rest

module _ (d : Doubles) (checks : Checks d) where
  -- The first number divided by each of the others; there is none of no numbers.
  abbrev pub quotient : List d.Double → d.Double
  quotient [] = d.quiet_nan
  quotient (x ∷ rest) = folded d.divided_by x rest

  -- A step whose text is no number fails, and changes nothing.
  abbrev pub if_number : Text → InvokeResult × CalcCtx d → CalcCtx d → InvokeResult × CalcCtx d
  if_number n good ctx =
      if checks.is_double n then good else (failure_result (codes "Cannot convert parameter"), ctx)

  abbrev pub expected : Option Text → InvokeResult
  expected none = success_result
  expected (some what) = failure_result what

  abbrev pub calc_step : CalcStep → CalcCtx d → InvokeResult × CalcCtx d
  calc_step (enter n) ctx =
      if_number n
        (
          success_result,
          record ctx { calc = record { values = ctx.calc.values ++ checks.to_double n ∷ [] } },
        )
        ctx
  calc_step press_plus ctx =
      (success_result, record ctx { result = folded d.plus d.zero_value ctx.calc.values })
  calc_step press_by ctx = (success_result, record ctx { result = quotient ctx.calc.values })
  calc_step (expect n) ctx =
      if_number n (expected (checks.expect_eq (checks.to_double n) ctx.result), ctx) ctx

  abbrev pub calc_run : List CalcStep → CalcCtx d → List InvokeResult × CalcCtx d
  calc_run [] ctx = ([], ctx)
  calc_run (step ∷ steps) ctx =
      let (result, ctx1) = calc_step step ctx in
      let (results, ctx2) = calc_run steps ctx1 in (result ∷ results, ctx2)
