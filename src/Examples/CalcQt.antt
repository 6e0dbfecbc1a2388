-- ===== src/Examples/CalcQt.antt =====
-- examples/CalcQt/src/Calculator.cpp: the calculator behind the widget. QRegularExpression's
-- `globalMatch` of `(\d+)` gives the runs of digits, from left to right.
pub mod Evaluation
pub mod Widget
pub mod Steps
pub mod Display
mod Tests
use cucumber_cpp.Base.{
  ℕ, zero, suc, ◌+◌, ◌-◌, ◌^◌, Bool, true, false, Option, none, some, List, [], ◌∷◌, ◌++◌, ◌>>=◌,
  if◌then◌else◌, ltb, leb, ◌==◌, length, Text, to_string, ℤ, pos, negsuc,
}
use cucumber_cpp.Tag.{span}
use cucumber_cpp.Engine.{is_digit, read_digits}

unfoldable pub add_nat : ℤ → ℕ → ℤ
add_nat (pos a) b = pos (a + b)
add_nat (negsuc a) b = if ltb a b then pos (b - a - 1) else negsuc (a - b)

unfoldable pub sub_nat : ℤ → ℕ → ℤ
sub_nat (pos a) b = if leb b a then pos (a - b) else negsuc (b - a - 1)
sub_nat (negsuc a) b = negsuc (a + b)

abbrev pub int_limit : ℕ
int_limit = 2 ^ 31

-- The overflow of an `int` is undefined.
unfoldable pub checked : ℤ → Option ℤ
checked (pos n) = if ltb n int_limit then some (pos n) else none
checked (negsuc n) = if ltb n int_limit then some (negsuc n) else none

-- `QString::toInt` of a run of digits: 0 if it is out of range.
unfoldable pub to_int : Text → ℕ
unfolding read_digits
to_int digits = let n = read_digits digits 0 in if ltb n int_limit then n else 0

-- `QString::number`.
unfoldable pub number_text : ℤ → Text
unfolding to_string
number_text (pos n) = to_string n
number_text (negsuc n) = b'-' ∷ to_string (suc n)

-- `matches.next()`: the next run of digits, and the text behind it.
unfoldable pub next_match : Text → Option (Text × Text)
unfolding is_digit span
next_match [] = none
next_match (c ∷ s) =
    let rest = next_match s in if is_digit c then some (span is_digit (c ∷ s)) else rest

-- The `switch`.
unfoldable pub apply : ℕ → ℤ → ℕ → ℤ
unfolding add_nat sub_nat
apply operation result value =
    if operation == b'+'
    then add_nat result value
    else if operation == b'-'
    then sub_nat result value
    else result

-- The character behind a match, if there is one, is the next operation.
unfoldable pub next_operation : ℕ → Text → ℕ
next_operation operation [] = operation
next_operation operation (c ∷ rest) = c

-- The loop; `none` is an overflow. Every match is a character at least, so the length of the text
-- is fuel enough.
unfoldable pub calculate_from : ℕ → Text → ℕ → ℤ → Option ℤ
unfolding next_match apply checked to_int next_operation
calculate_from zero s operation result = some result
calculate_from (suc fuel) s operation result = elim (next_match s) [
  | none ↦ some result
  | some (digits, rest) ↦ do
    result' ← checked (apply operation result (to_int digits))
    calculate_from fuel rest (next_operation operation rest) result'
]

unfoldable pub calculate : Text → Option ℤ
unfolding calculate_from
calculate expression = calculate_from (length expression) expression b'+' (pos 0)

-- `Calculator`.
pub record Calculator : Type 0 where
  pub expression : Text

-- What a slot leaves: the calculator, and the texts of the signals `updateDisplay` that it emits.
abbrev pub Emitted : Type 0
Emitted = Calculator × List Text

-- `emit updateDisplay(expression)`.
abbrev pub emit : Calculator → Emitted
emit c = (c, c.expression ∷ [])

-- What is connected to the signal is set to each text that is emitted.
abbrev pub set_texts : Text → List Text → Text
set_texts label [] = label
set_texts label (text ∷ texts) = set_texts text texts

unfoldable pub number : ℕ → Calculator → Emitted
unfolding to_string
number n c = emit (record c { expression = c.expression ++ to_string n })

unfoldable pub add : Calculator → Emitted
add c = emit (record c { expression = c.expression ++ b'+' ∷ [] })

unfoldable pub subtract : Calculator → Emitted
subtract c = emit (record c { expression = c.expression ++ b'-' ∷ [] })

unfoldable pub calculate_slot : Calculator → Option Emitted
unfolding calculate number_text
calculate_slot c = do
  result ← calculate c.expression
  some (emit (record c { expression = number_text result }))

unfoldable pub clear : Calculator → Emitted
clear c = emit (record c { expression = [] })
