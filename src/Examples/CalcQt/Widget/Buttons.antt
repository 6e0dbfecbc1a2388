-- ===== src/Examples/CalcQt/Widget/Buttons.antt =====
-- Which buttons are down behind key presses and releases.
use cucumber_cpp.Base.{
  ℕ, ◌≡◌, ◌≢◌, refl, true, false, none, some, List, [], ◌∷◌, ◌>>=◌, if◌then◌else◌, ◌==◌, ==_refl,
  ==_iff, Bool-cases, Option-cases, inl, inr, ◌⊎◌,
}
use cucumber_cpp.Examples.CalcQt.{Emitted, set_texts}
use cucumber_cpp.Examples.CalcQt.Widget.{
  Key, CalculatorWidget, update_display, clicked, click, set_down, key_button, key_press_event,
  key_release_event, Event, press, release, handle_event, run_events,
}
use cucumber_cpp.Examples.CalcQt.Widget.Invariants.{Leaves}

abbrev pub AllUp : CalculatorWidget → Type 0
AllUp w = (button : ℕ) → w.is_down button ≡ false

-- Behind the press of a key with a button, the button is down and is the one to be released; the
-- others are as they were.
abbrev pub pressed : ℕ → CalculatorWidget → Emitted → CalculatorWidget
pressed button w (c, texts) = record w {
  calculator = c;
  display_label = set_texts w.display_label texts;
  is_down = λ b. if b == button then true else w.is_down b;
  keyclicked_button = some button;
}

key_press_event-pressed :
    (key : Key) (button : ℕ) (w : CalculatorWidget)
    → key_button key ≡ some button
    → (key_press_event key w ≡ none)
      ⊎ ((c : Emitted) × (key_press_event key w ≡ some (pressed button w c)))
unfolding key_press_event click update_display set_down
key_press_event-pressed key button w k = elim (Option-cases (clicked button w.calculator)) [
  | inl e ↦ inl (rw (k, key_press_event) (rw (e, click) refl))
  | inr (c, e) ↦ inr (c, rw (k, key_press_event) (rw (e, click) refl))
]

-- A release lifts the button that the last press took down.
key_release_event-pressed :
    (button : ℕ) (w : CalculatorWidget) (c : Emitted)
    → AllUp w
    → AllUp (key_release_event (pressed button w c))
unfolding key_release_event set_down
key_release_event-pressed button w c up b = elim (Bool-cases (b == button)) [
  | inl e ↦ rw e refl
  | inr e ↦ rw e (up b)
]

-- The keys pressed one after the other, each released before the next.
abbrev pub typed : List Key → List Event
typed [] = []
typed (key ∷ keys) = press key ∷ release ∷ typed keys

type_key-AllUp :
    (key : Key) (w : CalculatorWidget)
    → AllUp w
    → Leaves AllUp (key_press_event key w >>= λ w'. some (key_release_event w'))
unfolding key_press_event key_release_event
type_key-AllUp key w up = elim (Option-cases (key_button key)) [
  | inl e ↦ rw (e, key_press_event) up
  | inr (button, e) ↦ elim (key_press_event-pressed key button w e) [
    | inl n ↦ rw n tt
    | inr (c, p) ↦ rw p (key_release_event-pressed button w c up)
  ]
]

-- If each key is released before the next is pressed, no button stays down.
pub run_events-AllUp :
    (keys : List Key) (w : CalculatorWidget) → AllUp w → Leaves AllUp (run_events (typed keys) w)
unfolding handle_event
run_events-AllUp [] w up = up
run_events-AllUp (key ∷ keys) w up =
    let one = type_key-AllUp key w up in
    elim (Option-cases (key_press_event key w)) [
      | inl n ↦ rw n tt
      | inr (w', p) ↦ rw p (run_events-AllUp keys (key_release_event w') (rw p at one))
    ]

-- If a second key is pressed before the first is released, the first one's button stays down behind
-- the releases of both.
pub two_presses-stay :
    (first second : Key) (b1 b2 : ℕ) (w : CalculatorWidget)
    → key_button first ≡ some b1
    → key_button second ≡ some b2
    → b1 ≢ b2
    → Leaves
        (λ w'. w'.is_down b1 ≡ true)
        (run_events (press first ∷ press second ∷ release ∷ release ∷ []) w)
unfolding handle_event key_release_event set_down
two_presses-stay first second b1 b2 w e1 e2 different =
    elim (key_press_event-pressed first b1 w e1) [
      | inl n ↦ rw n tt
      | inr (c1, p1) ↦ elim (key_press_event-pressed second b2 (pressed b1 w c1) e2) [
        | inl n ↦ rw p1 (rw n tt)
        | inr (c2, p2) ↦ rw p1 (rw p2 (rw (other, ==_refl b1) refl))
      ]
    ]
  where
    other : (b1 == b2) ≡ false
    other = elim (Bool-cases (b1 == b2)) [
      | inl e ↦ absurd (different ((==_iff b1 b2).0 e))
      | inr e ↦ e
    ]
