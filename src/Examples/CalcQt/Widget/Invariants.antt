-- ===== src/Examples/CalcQt/Widget/Invariants.antt =====
-- What is asked of the widget behind events.
use cucumber_cpp.Base.{◌≡◌, Option, none, some}
use cucumber_cpp.Examples.CalcQt.Widget.{CalculatorWidget}

-- The display shows the expression of the calculator.
abbrev pub IsShown : CalculatorWidget → Type 0
IsShown w = w.display_label ≡ w.calculator.expression

-- A property of the widget that an event, if it ends, leaves behind.
abbrev pub Leaves : (CalculatorWidget → Type 0) → Option CalculatorWidget → Type 0
Leaves P none = Unit
Leaves P (some w) = P w
