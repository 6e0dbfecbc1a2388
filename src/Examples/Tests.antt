-- ===== src/Examples/Tests.antt =====
-- The examples at small inputs, and the theorems at them.
use cucumber_cpp.Base.{
  ℕ, ◌+◌, ◌-◌, ◌≡◌, refl, true, some, List, [], ◌∷◌, All, codes, arith, to_string, negsuc,
}
use cucumber_cpp.Examples.Calc.{Doubles, push, add, divide, push_lem}
use cucumber_cpp.Examples.Calc as Calc
use cucumber_cpp.Examples.CalcQt.{calculate, number_text}
use cucumber_cpp.Examples.CalcQt.Evaluation.{
  Term, plus, minus, written, evaluate, InRange, calculate-written,
}
use cucumber_cpp.Examples.CalcQt.Widget.{
  key_digit, key_plus, key_enter, key_button, Event, press, release, run_events, new_widget,
  addition_button,
}
use cucumber_cpp.Examples.CalcQt.Widget.Invariants.{IsShown, Leaves}
use cucumber_cpp.Examples.CalcQt.Widget.Typing.{
  IsEvent, views, both, typed_events, run_events-typed_events,
}
use cucumber_cpp.Examples.CalcQt.Widget.Buttons.{AllUp, two_presses-stay}
use cucumber_cpp.Examples.ActiveActors.{Actors, get_oldest_actor}

-- `1+2-5`.
abbrev terms : List Term
terms = plus 2 ∷ minus 5 ∷ []

terms-InRange : All InRange (plus 1 ∷ terms)
terms-InRange = (omega arith, (omega arith, (omega arith, tt)))

calculate-written_example : calculate (written 1 terms) ≡ evaluate (0, 0) (plus 1 ∷ terms)
calculate-written_example = calculate-written 1 terms terms-InRange

negative_example : calculate (written 1 terms) ≡ some (negsuc 1)
unfolding calculate to_string
negative_example = refl

abbrev events : List Event
events = press (key_digit 4) ∷ press key_plus ∷ release ∷ press (key_digit 2) ∷ press key_enter ∷ []

new_widget-IsShown : IsShown new_widget
unfolding new_widget
new_widget-IsShown = refl

events-IsEvent : All IsEvent events
events-IsEvent = (omega arith, (tt, (tt, (omega arith, (tt, tt)))))

run_events-typed_events_example :
    views (run_events events new_widget) ≡ both (typed_events events [])
unfolding new_widget
run_events-typed_events_example =
    run_events-typed_events events new_widget new_widget-IsShown events-IsEvent

typed_example : typed_events events [] ≡ some (codes "6")
unfolding calculate number_text to_string
typed_example = refl

new_widget-AllUp : AllUp new_widget
unfolding new_widget
new_widget-AllUp button = refl

four_plus : key_button key_plus ≡ some addition_button
unfolding key_button
four_plus = refl

four_button : key_button (key_digit 4) ≡ some 4
unfolding key_button
four_button = refl

two_presses-stay_example :
    Leaves
      (λ w. w.is_down 4 ≡ true)
      (run_events (press (key_digit 4) ∷ press key_plus ∷ release ∷ release ∷ []) new_widget)
two_presses-stay_example =
    two_presses-stay (key_digit 4) key_plus 4 addition_button new_widget four_button four_plus
      (λ e. omega (arith, e))

-- The first of the three in the order of names is the youngest; the one told is not the oldest.
abbrev actors : Actors
actors = (codes "A", 1950) ∷ (codes "B", 1930) ∷ (codes "C", 1940) ∷ []

oldest_example : get_oldest_actor actors ≡ some (codes "C")
unfolding get_oldest_actor
oldest_example = refl

-- Numbers for `double`.
abbrev numbers : Doubles
numbers = record {
  Double = ℕ;
  zero_value = 0;
  quiet_nan = 0;
  plus = λ a b. a + b;
  divided_by = λ a b. a - b;
}

abbrev calculator : Calc.Calculator numbers
calculator = record { values = 4 ∷ [] }
