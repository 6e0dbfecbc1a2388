-- ===== src/Examples/CalcQt/Widget/Typing.antt =====
-- What the events type, and what the calculator and the display hold behind them.
use cucumber_cpp.Base.{
  ℕ, ◌≡◌, ◌<◌, ◌∙◌, refl, sym, ap, true, Bool-cases, Option, none, some, List, [], ◌∷◌, ◌++◌, ◌>>=◌,
  Option-cases, inl, inr, if◌then◌else◌, ltb, lt→ltb, ◌==◌, Text, codes, to_string, ℤ, All,
}
use cucumber_cpp.Examples.CalcQt.{
  calculate, number_text, emit, number, add, subtract, calculate_slot, clear,
}
use cucumber_cpp.Examples.CalcQt.Widget.{
  Key, key_digit, key_plus, key_minus, key_return, key_enter, key_equal, key_escape, key_other,
  CalculatorWidget, update_display, clicked, click, set_down, key_button, key_press_event,
  key_release_event, Event, press, release, mouse_click, handle_event, run_events,
}
use cucumber_cpp.Examples.CalcQt.Widget.Invariants.{IsShown}

-- The text of the result; `none` is a calculation out of range.
abbrev pub calculated : Text → Option Text
calculated e = do result ← calculate e; some (number_text result)

-- The text behind a key, and behind a button: ten digits, then C, +, - and =.
abbrev pub typed_key : Key → Text → Option Text
typed_key (key_digit i) e = some (e ++ to_string i)
typed_key key_plus e = some (e ++ codes "+")
typed_key key_minus e = some (e ++ codes "-")
typed_key key_return e = calculated e
typed_key key_enter e = calculated e
typed_key key_equal e = calculated e
typed_key key_escape e = some []
typed_key key_other e = some e

abbrev pub typed_button : ℕ → Text → Option Text
typed_button button e =
    if ltb button 10
    then some (e ++ to_string button)
    else if button == 10
    then some []
    else if button == 11
    then some (e ++ codes "+")
    else if button == 12
    then some (e ++ codes "-")
    else calculated e

abbrev pub typed_event : Event → Text → Option Text
typed_event (press key) e = typed_key key e
typed_event release e = some e
typed_event (mouse_click button) e = typed_button button e

abbrev pub typed_events : List Event → Text → Option Text
typed_events [] e = some e
typed_events (event ∷ events) e = do e' ← typed_event event e; typed_events events e'

-- A digit key is one of ten.
abbrev pub IsEvent : Event → Type 0
IsEvent (press (key_digit i)) = i < 10
IsEvent _ = Unit

-- The calculator's expression, and the display; and a text that is both.
abbrev pub views : Option CalculatorWidget → Option (Text × Text)
views none = none
views (some w) = some (w.calculator.expression, w.display_label)

abbrev pub both : Option Text → Option (Text × Text)
both none = none
both (some e) = some (e, e)

calculated_lem :
    (o : Option ℤ) (w : CalculatorWidget)
    → views (do
      emitted ← do result ← o; some (emit (record w.calculator { expression = number_text result }))
      some (update_display w emitted))
      ≡ both (do result ← o; some (number_text result))
unfolding update_display
calculated_lem none w = refl
calculated_lem (some result) w = refl

click-typed_button :
    (button : ℕ) (w : CalculatorWidget)
    → views (click button w) ≡ both (typed_button button w.calculator.expression)
unfolding click clicked update_display number add subtract calculate_slot clear
click-typed_button button w = elim (Bool-cases (ltb button 10)) [
  | inl e ↦ rw e refl
  | inr e ↦ rw e (elim (Bool-cases (button == 10)) [
    | inl f ↦ rw f refl
    | inr f ↦ rw f (elim (Bool-cases (button == 11)) [
      | inl g ↦ rw g refl
      | inr g ↦ rw g (elim (Bool-cases (button == 12)) [
        | inl h ↦ rw h refl
        | inr h ↦ rw h (calculated_lem (calculate w.calculator.expression) w)
      ])
    ])
  ])
]

views-set_down :
    (button : ℕ) (o : Option CalculatorWidget)
    → views (do w ← o; some (set_down button true w)) ≡ views o
unfolding set_down
views-set_down button none = refl
views-set_down button (some w) = refl

-- The press of a key is a click on its button.
press-click :
    (key : Key) (button : ℕ) (w : CalculatorWidget)
    → key_button key ≡ some button
    → views (key_press_event key w) ≡ both (typed_button button w.calculator.expression)
unfolding key_press_event
press-click key button w e =
    let w' : CalculatorWidget = record w { keyclicked_button = some button } in
    rw (e, key_press_event) (views-set_down button (click button w') ∙ click-typed_button button w')

press-typed_key :
    (key : Key) (w : CalculatorWidget)
    → IsShown w
    → IsEvent (press key)
    → views (key_press_event key w) ≡ both (typed_key key w.calculator.expression)
unfolding key_button key_press_event
press-typed_key (key_digit i) w shown good =
    press-click (key_digit i) i w refl ∙ rw (lt→ltb i 10 good) refl
press-typed_key key_plus w shown good = press-click key_plus 11 w refl
press-typed_key key_minus w shown good = press-click key_minus 12 w refl
press-typed_key key_return w shown good = press-click key_return 13 w refl
press-typed_key key_enter w shown good = press-click key_enter 13 w refl
press-typed_key key_equal w shown good = press-click key_equal 13 w refl
press-typed_key key_escape w shown good = press-click key_escape 10 w refl
press-typed_key key_other w shown good = ap (λ label. some (w.calculator.expression, label)) shown

release-shown :
    (w : CalculatorWidget)
    → IsShown w
    → views (some (key_release_event w)) ≡ both (some w.calculator.expression)
unfolding key_release_event set_down
release-shown w shown = elim (Option-cases w.keyclicked_button) [
  | inl e ↦ rw (e, key_release_event) (ap (λ label. some (w.calculator.expression, label)) shown)
  | inr (button, e) ↦
      rw (e, key_release_event) (ap (λ label. some (w.calculator.expression, label)) shown)
]

handle_event-typed_event :
    (event : Event) (w : CalculatorWidget)
    → IsShown w
    → IsEvent event
    → views (handle_event event w) ≡ both (typed_event event w.calculator.expression)
unfolding handle_event
handle_event-typed_event (press key) w shown good = press-typed_key key w shown good
handle_event-typed_event release w shown good = release-shown w shown
handle_event-typed_event (mouse_click button) w shown good = click-typed_button button w

-- Whatever digits, signs and other keys the user presses and releases, and whatever buttons the
-- user clicks, the calculator's expression and the display are the text that is typed, calculated
-- and cleared by them, from the text that both were before; and the code ends without an overflow
-- of a calculation exactly if the typing does.
pub run_events-typed_events :
    (events : List Event) (w : CalculatorWidget)
    → IsShown w
    → All IsEvent events
    → views (run_events events w) ≡ both (typed_events events w.display_label)
run_events-typed_events [] w shown good = ap (λ e. some (e, w.display_label)) (sym shown)
run_events-typed_events (event ∷ events) w shown (good, goods) =
    follow (λ w' shown'. run_events-typed_events events w' shown' goods) (handle_event event w)
      (typed_event event w.calculator.expression) (handle_event-typed_event event w shown good)
    ∙ ap (λ e. both (typed_events (event ∷ events) e)) (sym shown)
  where
    follow :
        ((w' : CalculatorWidget)
          → IsShown w'
          → views (run_events events w') ≡ both (typed_events events w'.display_label))
        → (o : Option CalculatorWidget) (typed : Option Text) → views o ≡ both typed
        → views (do w' ← o; run_events events w') ≡ both (do e' ← typed; typed_events events e')
    follow ih none none h = refl
    follow ih none (some e') h = absurd cc
    follow ih (some w') none h = absurd cc
    follow ih (some w') (some e') h =
        let label : w'.display_label ≡ e' = cc in
        let shown' : IsShown w' = cc in ih w' shown' ∙ ap (λ e. both (typed_events events e)) label
