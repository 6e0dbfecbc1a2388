-- ===== src/Examples/CalcQt/Display.antt =====
-- Presses one after the other, and what the display shows behind them.
use cucumber_cpp.Base.{
  ℕ, ◌%◌, ◌≡◌, ◌∙◌, refl, ap, ap₂, map, subst, Option-cases, inl, inr, true, Option, none, some,
  List, [], ◌∷◌, ◌++◌, ◌>>=◌, Text, codes, to_string, All,
}
use cucumber_cpp.Table.{empty_table}
use cucumber_cpp.Commands.{World}
use cucumber_cpp.Step.Body.{InvokeArgs, InvokeResult, success_result, Thrown, StepBody}
use cucumber_cpp.Step.Drivers.{gtest}
use cucumber_cpp.Step.Invoke.{invoke}
use cucumber_cpp.Examples.Scoped.Object.{current}
use cucumber_cpp.Examples.Scoped.Invocation.{
  ending, Invokes, invoke-within_scope, invoke-regex_param,
}
use cucumber_cpp.Examples.CalcQt.{
  number, add, subtract, calculate, calculate_slot, clear, number_text,
}
use cucumber_cpp.Examples.CalcQt.Steps.{
  CalculatorCtx, new_ctx, Platform, press_number, press_add, press_calculate, press_clear,
  press_subtract, i_press_number, i_press_add, i_press_calculate, i_press_clear, i_press_subtract,
}

pub data Press : Type 0 where
  digits : Text → Press
  plus minus equals clearing : Press

-- The context whose display shows its expression.
abbrev pub shown : Text → CalculatorCtx
shown e = record { calculator = record { expression = e }; display = e }

module _ (platform : Platform) (t : ℕ) where
  abbrev pub body_of : Press → StepBody (World (ℕ → CalculatorCtx))
  body_of (digits n) = i_press_number platform t
  body_of plus = i_press_add platform t
  body_of minus = i_press_subtract platform t
  body_of equals = i_press_calculate platform t
  body_of clearing = i_press_clear platform t

  abbrev pub args_of : Press → InvokeArgs
  args_of (digits n) = record { table_arg = empty_table; args = n ∷ [] }
  args_of _ = record { table_arg = empty_table; args = [] }

  -- The number of a press converts.
  abbrev pub IsPress : Press → Type 0
  IsPress (digits n) = platform.is_unsigned n ≡ true
  IsPress _ = Unit

  -- The expression behind a press; `none` is a calculation out of range.
  abbrev pub typed : Press → Text → Option Text
  typed (digits n) e = some (e ++ to_string (platform.to_unsigned n % 256))
  typed plus e = some (e ++ codes "+")
  typed minus e = some (e ++ codes "-")
  typed equals e = do result ← calculate e; some (number_text result)
  typed clearing e = some []

  abbrev pub typed_presses : List Press → Text → Option Text
  typed_presses [] e = some e
  typed_presses (p ∷ presses) e = do e' ← typed p e; typed_presses presses e'

  abbrev pub invoke_presses :
      List Press → World (ℕ → CalculatorCtx) → List InvokeResult × World (ℕ → CalculatorCtx)
  invoke_presses [] w = ([], w)
  invoke_presses (p ∷ presses) w =
      let (result, w1) = invoke gtest (body_of p) (args_of p) w in
      let (results, w2) = invoke_presses presses w1 in (result ∷ results, w2)

  abbrev quiet : Text → CalculatorCtx × Option Thrown
  quiet e = (shown e, none)

  -- A body that does something to the context, as one that types.
  Invokes-typed :
      (body : StepBody (World (ℕ → CalculatorCtx))) (args : InvokeArgs)
      (w : World (ℕ → CalculatorCtx)) (action : CalculatorCtx → CalculatorCtx × Option Thrown)
      (e e' : Text)
      → current t new_ctx w ≡ shown e
      → action (shown e) ≡ quiet e'
      → Invokes t new_ctx body args w
          (ending (action (current t new_ctx w)).1)
          (action (current t new_ctx w)).0
      → Invokes t new_ctx body args w success_result (shown e')
  Invokes-typed body args w action e e' here done run =
      subst (λ q. Invokes t new_ctx body args w (ending q.1) q.0) (ap action here ∙ done) run

  text_of : Option Text → Text
  text_of none = []
  text_of (some e) = e

  same_text : (e e' : Text) → some e ≡ some e' → quiet e ≡ quiet e'
  unfolding text_of
  same_text e e' h = ap (λ o. quiet (text_of o)) h

  press_calculate-typed :
      (e e' : Text) → typed equals e ≡ some e' → press_calculate platform (shown e) ≡ quiet e'
  unfolding press_calculate calculate_slot
  press_calculate-typed e e' h = elim (Option-cases (calculate e)) [
    | inl none_left ↦ let gone : none ≡ some e' = rw none_left at h in absurd cc
    | inr (result, found) ↦ rw found (same_text (number_text result) e' (rw found at h))
  ]

  Invokes-press :
      (p : Press) (e e' : Text) (w : World (ℕ → CalculatorCtx))
      → IsPress p
      → current t new_ctx w ≡ shown e
      → typed p e ≡ some e'
      → Invokes t new_ctx (body_of p) (args_of p) w success_result (shown e')
  unfolding i_press_number i_press_add i_press_calculate i_press_clear i_press_subtract press_number
      press_add press_clear press_subtract number add subtract clear
  Invokes-press (digits n) e e' w good here h =
      Invokes-typed _ _ w (press_number platform n) e e' here (same_text _ e' h) (
        invoke-regex_param t new_ctx platform.is_unsigned (press_number platform)
          (args_of (digits n)) n w refl good)
  Invokes-press plus e e' w good here h =
      Invokes-typed _ _ w (press_add platform) e e' here (same_text _ e' h)
        (invoke-within_scope t new_ctx (press_add platform) (args_of plus) w)
  Invokes-press minus e e' w good here h =
      Invokes-typed _ _ w (press_subtract platform) e e' here (same_text _ e' h)
        (invoke-within_scope t new_ctx (press_subtract platform) (args_of minus) w)
  Invokes-press equals e e' w good here h =
      Invokes-typed _ _ w (press_calculate platform) e e' here (press_calculate-typed e e' h)
        (invoke-within_scope t new_ctx (press_calculate platform) (args_of equals) w)
  Invokes-press clearing e e' w good here h =
      Invokes-typed _ _ w (press_clear platform) e e' here (same_text _ e' h)
        (invoke-within_scope t new_ctx (press_clear platform) (args_of clearing) w)

  -- Presses that succeed, and the display behind them.
  pub record Types (presses : List Press) (e' : Text) (w : World (ℕ → CalculatorCtx)) : Type 0 where
    pub results : (invoke_presses presses w).0 ≡ map (λ p. success_result) presses
    pub shows : current t new_ctx (invoke_presses presses w).1 ≡ shown e'
    pub held : (invoke_presses presses w).1.contexts.held ≡ w.contexts.held

  -- Presses one after the other, whose numbers convert and whose calculations are in range, all
  -- succeed and leave no scope; behind them the display shows the expression of the calculator,
  -- which is what was typed, the numbers modulo 256, or calculated, behind what it showed before.
  pub invoke_presses-typed_presses :
      (presses : List Press) (e e' : Text) (w : World (ℕ → CalculatorCtx))
      → All IsPress presses
      → current t new_ctx w ≡ shown e
      → typed_presses presses e ≡ some e'
      → Types presses e' w
  unfolding text_of
  invoke_presses-typed_presses [] e e' w good here h = record {
    results = refl;
    shows = here ∙ ap (λ o. shown (text_of o)) h;
    held = refl;
  }
  invoke_presses-typed_presses (p ∷ presses) e e' w (good, goods) here h =
      elim (Option-cases (typed p e)) [
        | inl none_left ↦ let gone : none ≡ some e' = rw none_left at h in absurd cc
        | inr (e1, found) ↦
            let first = Invokes-press p e e1 w good here found in
            let w1 = (invoke gtest (body_of p) (args_of p) w).1 in
            let at_w1 : current t new_ctx w1 ≡ shown e1 =
              ap (λ q. current t new_ctx q.1) first.invoked ∙ first.uses.made in
            let rest = invoke_presses-typed_presses presses e1 e' w1 goods at_w1 (rw found at h) in
            record {
              results = ap₂ (◌∷◌) (ap (λ q. q.0) first.invoked) rest.results;
              shows = rest.shows;
              held = rest.held ∙ ap (λ q. q.1.contexts.held) first.invoked ∙ first.uses.held;
            }
      ]
