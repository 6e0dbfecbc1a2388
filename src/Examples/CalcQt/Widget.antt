-- ===== src/Examples/CalcQt/Widget.antt =====
-- examples/CalcQt/src/CalculatorWidget.cpp: the buttons, the keys, and the display. A button is
-- its place in the order in which the constructor makes the buttons; what layouts and policies show
-- is Qt's.
pub mod Buttons
pub mod Invariants
pub mod Typing
use cucumber_cpp.Base.{
  ℕ, ◌+◌, ◌≡◌, ◌≢◌, refl, sym, ap, ◌∙◌, Bool, true, false, Option, none, some, List, [], ◌∷◌, ◌++◌,
  ◌>>=◌, if◌then◌else◌, ltb, ◌==◌, ==_refl, ==_iff, Bool-cases, Option-cases, inl, inr, Text, arith,
}
use cucumber_cpp.Examples.CalcQt.{
  Calculator, Emitted, set_texts, number, add, subtract, calculate_slot, clear,
}

abbrev pub clear_button : ℕ
clear_button = 10

abbrev pub addition_button : ℕ
addition_button = 11

abbrev pub subtraction_button : ℕ
subtraction_button = 12

abbrev pub calculate_button : ℕ
calculate_button = 13

-- The keys that the widget tells apart; the digits are 0 to 9.
pub data Key : Type 0 where
  key_digit : ℕ → Key
  key_plus key_minus key_return key_enter key_equal key_escape key_other : Key

pub record CalculatorWidget : Type 0 where
  pub calculator : Calculator
  pub display_label : Text
  pub is_down : ℕ → Bool
  pub keyclicked_button : Option ℕ

-- The signal `updateDisplay` is connected to the display: the calculator behind a slot, and the
-- label set to each text that the slot has emitted.
unfoldable pub update_display : CalculatorWidget → Emitted → CalculatorWidget
update_display w (c, texts) = record w {
  calculator = c;
  display_label = set_texts w.display_label texts;
}

-- The connections of the constructor: the slot of the calculator that a button calls; `none` is an
-- overflow.
unfoldable pub clicked : ℕ → Calculator → Option Emitted
unfolding number add subtract calculate_slot clear
clicked button c =
    if ltb button 10
    then some (number button c)
    else if button == clear_button
    then some (clear c)
    else if button == addition_button
    then some (add c)
    else if button == subtraction_button
    then some (subtract c)
    else calculate_slot c

unfoldable pub click : ℕ → CalculatorWidget → Option CalculatorWidget
unfolding clicked update_display
click button w = do emitted ← clicked button w.calculator; some (update_display w emitted)

unfoldable pub set_down : ℕ → Bool → CalculatorWidget → CalculatorWidget
set_down button value w = record w { is_down = λ b. if b == button then value else w.is_down b }

-- The button of a key.
unfoldable pub key_button : Key → Option ℕ
key_button (key_digit i) = some i
key_button key_plus = some addition_button
key_button key_minus = some subtraction_button
key_button key_return = some calculate_button
key_button key_enter = some calculate_button
key_button key_equal = some calculate_button
key_button key_escape = some clear_button
key_button key_other = none

unfoldable pub key_press_event : Key → CalculatorWidget → Option CalculatorWidget
unfolding key_button click set_down
key_press_event key w = elim (key_button key) [
  | none ↦ some (record w { keyclicked_button = none })
  | some button ↦ do
    w' ← click button (record w { keyclicked_button = some button })
    some (set_down button true w')
]

unfoldable pub key_release_event : CalculatorWidget → CalculatorWidget
unfolding set_down
key_release_event w = elim w.keyclicked_button [
  | none ↦ w
  | some button ↦ record (set_down button false w) { keyclicked_button = none }
]

-- What the user does.
pub data Event : Type 0 where
  press : Key → Event
  release : Event
  mouse_click : ℕ → Event

unfoldable pub handle_event : Event → CalculatorWidget → Option CalculatorWidget
unfolding key_press_event key_release_event click
handle_event (press key) w = key_press_event key w
handle_event release w = some (key_release_event w)
handle_event (mouse_click button) w = click button w

abbrev pub run_events : List Event → CalculatorWidget → Option CalculatorWidget
run_events [] w = some w
run_events (e ∷ events) w = do w' ← handle_event e w; run_events events w'

-- The widget that the constructor makes.
unfoldable pub new_widget : CalculatorWidget
new_widget = record {
  calculator = record { expression = [] };
  display_label = [];
  is_down = λ b. false;
  keyclicked_button = none;
}
