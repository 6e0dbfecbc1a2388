-- ===== src/Examples/CalcQt/Steps.antt =====
-- examples/CalcQt/features/step_definitions/CalculatorQtSteps.cpp, under GoogleTest: the display is
-- what the calculator's signal told last.
use cucumber_cpp.Base.{ℕ, ◌%◌, Bool, not, Option, none, some, [], Text, c_str, is_empty}
use cucumber_cpp.Tag.{is_space, span}
use cucumber_cpp.Commands.{World}
use cucumber_cpp.Engine.{skip_blank}
use cucumber_cpp.Step.Body.{Thrown, StepBody}
use cucumber_cpp.Macros.{regex_param}
use cucumber_cpp.Examples.Scoped.{failed, within_scope}
use cucumber_cpp.Examples.CalcQt.{
  Calculator, Emitted, set_texts, number, add, subtract, calculate_slot, clear,
}

-- `CalculatorCtx`; its constructor connects the signal to the display.
pub record CalculatorCtx : Type 0 where
  pub calculator : Calculator
  pub display : Text

abbrev pub new_ctx : CalculatorCtx
new_ctx = record { calculator = record { expression = [] }; display = [] }

-- The signals that a slot of the calculator emits set the display.
abbrev pub with_signal : CalculatorCtx → Emitted → CalculatorCtx
with_signal ctx (c, texts) = record { calculator = c; display = set_texts ctx.display texts }

-- What the steps use besides: `fromString<unsigned int>`, the texts that it converts and their
-- values; the text of the failure that `EXPECT_EQ` throws, if the texts differ; and what a
-- calculation out of the range of `int` does, which is undefined.
pub record Platform : Type 0 where
  pub is_unsigned : Text → Bool
  pub to_unsigned : Text → ℕ
  pub expect_eq : Text → Text → Option Text
  pub overflow : CalculatorCtx → CalculatorCtx × Option Thrown

-- `operator>>` of a `QString`: one word of the text, read as a C string; there must be one.
unfoldable pub read_word : Text → Text
unfolding skip_blank span is_space
read_word s = (span (λ c. not (is_space c)) (skip_blank s)).0

unfoldable pub is_qstring : Text → Bool
unfolding read_word
is_qstring s = not (is_empty (read_word s))

unfoldable pub to_qstring : Text → Text
unfolding read_word
to_qstring s = c_str (read_word s)

module _ (platform : Platform) where
  -- `number` takes a `quint8`.
  unfoldable pub press_number : Text → CalculatorCtx → CalculatorCtx × Option Thrown
  unfolding number
  press_number n ctx =
      (with_signal ctx (number (platform.to_unsigned n % 256) ctx.calculator), none)

  unfoldable pub press_add : CalculatorCtx → CalculatorCtx × Option Thrown
  unfolding add
  press_add ctx = (with_signal ctx (add ctx.calculator), none)

  unfoldable pub press_calculate : CalculatorCtx → CalculatorCtx × Option Thrown
  unfolding calculate_slot
  press_calculate ctx = elim (calculate_slot ctx.calculator) [
    | none ↦ platform.overflow ctx
    | some emitted ↦ (with_signal ctx emitted, none)
  ]

  unfoldable pub press_clear : CalculatorCtx → CalculatorCtx × Option Thrown
  unfolding clear
  press_clear ctx = (with_signal ctx (clear ctx.calculator), none)

  unfoldable pub press_subtract : CalculatorCtx → CalculatorCtx × Option Thrown
  unfolding subtract
  press_subtract ctx = (with_signal ctx (subtract ctx.calculator), none)

  unfoldable pub check_display : Text → CalculatorCtx → CalculatorCtx × Option Thrown
  check_display text ctx = (ctx, failed (platform.expect_eq text ctx.display))

  -- The bodies; `t` stands for `CalculatorCtx`.
  module _ (t : ℕ) where
    unfoldable pub turned_on : StepBody (World (ℕ → CalculatorCtx))
    unfolding within_scope
    turned_on = within_scope t new_ctx λ ctx. (ctx, none)

    unfoldable pub i_press_number : StepBody (World (ℕ → CalculatorCtx))
    unfolding regex_param within_scope press_number
    i_press_number = regex_param platform.is_unsigned λ n. within_scope t new_ctx (press_number n)

    unfoldable pub i_press_add : StepBody (World (ℕ → CalculatorCtx))
    unfolding within_scope press_add
    i_press_add = within_scope t new_ctx press_add

    unfoldable pub i_press_calculate : StepBody (World (ℕ → CalculatorCtx))
    unfolding within_scope press_calculate
    i_press_calculate = within_scope t new_ctx press_calculate

    unfoldable pub i_press_clear : StepBody (World (ℕ → CalculatorCtx))
    unfolding within_scope press_clear
    i_press_clear = within_scope t new_ctx press_clear

    unfoldable pub i_press_subtract : StepBody (World (ℕ → CalculatorCtx))
    unfolding within_scope press_subtract
    i_press_subtract = within_scope t new_ctx press_subtract

    unfoldable pub display_is_empty : StepBody (World (ℕ → CalculatorCtx))
    unfolding within_scope check_display
    display_is_empty = within_scope t new_ctx (check_display [])

    unfoldable pub display_shows : StepBody (World (ℕ → CalculatorCtx))
    unfolding regex_param within_scope check_display is_qstring to_qstring
    display_shows =
        regex_param is_qstring λ text. within_scope t new_ctx (check_display (to_qstring text))
