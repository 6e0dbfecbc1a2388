-- ===== src/Examples/CalcQt/Tests.antt =====
-- Presses of 300, add, 2 and calculate: the number 300 is typed as 44.
use cucumber_cpp.Base.{ℕ, ◌≡◌, refl, true, none, some, List, [], ◌∷◌, codes, to_string, All}
use cucumber_cpp.Commands.{World}
use cucumber_cpp.Context.{expired}
use cucumber_cpp.Engine.{read_digits}
use cucumber_cpp.Examples.CalcQt.{calculate, number_text}
use cucumber_cpp.Examples.CalcQt.Steps.{CalculatorCtx, new_ctx, Platform}
use cucumber_cpp.Examples.CalcQt.Display.{
  Press, digits, plus, equals, IsPress, typed_presses, Types, invoke_presses-typed_presses,
}

abbrev platform : Platform
platform = record {
  is_unsigned = λ s. true;
  to_unsigned = λ s. read_digits s 0;
  expect_eq = λ a b. none;
  overflow = λ ctx. (ctx, none);
}

abbrev presses : List Press
presses = digits (codes "300") ∷ plus ∷ digits (codes "2") ∷ equals ∷ []

abbrev world : World (ℕ → CalculatorCtx)
world = record {
  contexts = record { contexts = []; held = []; references = λ t. none; next_object = 0 };
  user = λ o. new_ctx;
}

presses-IsPress : All (IsPress platform 0) presses
presses-IsPress = (refl, (tt, (refl, (tt, tt))))

presses_typed : typed_presses platform 0 presses [] ≡ some (codes "46")
unfolding read_digits calculate number_text to_string
presses_typed = refl

invoke_presses-typed_presses_example : Types platform 0 presses (codes "46") world
unfolding expired
invoke_presses-typed_presses_example =
    invoke_presses-typed_presses platform 0 presses [] (codes "46") world presses-IsPress refl
      presses_typed
