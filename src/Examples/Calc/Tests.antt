-- ===== src/Examples/Calc/Tests.antt =====
-- A scenario of the calculator: 4 and 5 are entered, add is pressed, and 9 is expected.
use cucumber_cpp.Base.{
  ℕ, ◌+◌, ◌-◌, ◌≡◌, refl, true, false, none, some, List, [], ◌∷◌, ◌==◌, if◌then◌else◌, map, Text,
  codes, is_empty, All,
}
use cucumber_cpp.Expression.Types.{TypeMap}
use cucumber_cpp.Regex.{RegexEngine}
use cucumber_cpp.Commands.{CukeCommands, initial}
use cucumber_cpp.Step.Body.{success_result, failure_result}
use cucumber_cpp.Engine.{read_digits}
use cucumber_cpp.Wire.Json.{Json}
use cucumber_cpp.Wire.Decoder.{WireCommand}
use cucumber_cpp.Wire.Session.{texts, scenario_commands, Spoken}
use cucumber_cpp.Wire.Tests.{values, values-IsJson, speak, answer}
use cucumber_cpp.Examples.Calc.{Doubles, push, add, divide}
use cucumber_cpp.Examples.Calc.Steps.{Checks, CalcCtx, new_ctx}
use cucumber_cpp.Examples.Calc.Machine.{CalcStep, enter, press_plus, press_by, expect, calc_run}
use cucumber_cpp.Examples.Calc.Feature.{by_parameter}
use cucumber_cpp.Examples.Calc.Session.{call_of, Answered, process_stream-calc_run}

-- Numbers for `double`.
abbrev numbers : Doubles
numbers = record {
  Double = ℕ;
  zero_value = 0;
  quiet_nan = 0;
  plus = λ a b. a + b;
  divided_by = λ a b. a - b;
}

abbrev checks : Checks numbers
checks = record {
  is_double = λ s. if is_empty s then false else true;
  to_double = λ s. read_digits s 0;
  expect_eq = λ a b. if a == b then none else some (codes "differ");
}

abbrev engine : RegexEngine
engine = record { regex_error = λ r. none; regex_search = λ r s. none; regex_tokens = λ r s. [] }

abbrev types : TypeMap
types = []

abbrev steps : List CalcStep
steps = enter (codes "4") ∷ enter (codes "5") ∷ press_plus ∷ expect (codes "9") ∷ []

sum_example :
    (calc_run numbers checks steps (new_ctx numbers)).0
    ≡ success_result ∷ success_result ∷ success_result ∷ success_result ∷ []
unfolding read_digits push add
sum_example = refl

-- A text that is no number, and a wrong expectation.
bad_run_example :
    (calc_run numbers checks (enter [] ∷ press_by ∷ expect (codes "1") ∷ []) (new_ctx numbers)).0
    ≡ failure_result (codes "Cannot convert parameter")
      ∷ success_result
      ∷ failure_result (codes "differ")
      ∷ []
unfolding read_digits divide
bad_run_example = refl

abbrev idle : CukeCommands (ℕ → CalcCtx numbers)
idle = initial (record {
  contexts = record { contexts = []; held = []; references = λ t. none; next_object = 0 };
  user = λ o. new_ctx numbers;
})

abbrev commands : List WireCommand
commands = scenario_commands [] (map (call_of numbers checks 0 by_parameter (codes "f.cpp")) steps)

abbrev spoken : List (Text × WireCommand)
spoken = speak b'a' commands

abbrev json : Json
json = values λ text. answer text spoken

spoken-Spoken : All (Spoken json) spoken
spoken-Spoken =
    ((tt, refl), ((tt, refl), ((tt, refl), ((tt, refl), ((tt, refl), ((tt, refl), tt))))))

process_stream-calc_run_example :
    Answered numbers checks 0 by_parameter
      (codes "f.cpp")
      json
      engine
      types
      0
      steps
      (texts spoken)
      idle
process_stream-calc_run_example =
    process_stream-calc_run numbers checks 0 by_parameter (codes "f.cpp") json
      (values-IsJson λ text. answer text spoken) engine types 0 [] steps spoken idle (λ step. refl)
      refl spoken-Spoken refl
