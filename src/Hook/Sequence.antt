-- ===== src/Hook/Sequence.antt =====
-- In which order the registered hooks run.
use cucumber_cpp.Base.{◌≡◌, ◌∙◌, refl, sym, ap, Option, List, [], ◌∷◌, ◌++◌, if◌then◌else◌, Text}
use cucumber_cpp.Tag.{and_tag_expression}
use cucumber_cpp.Step.Body.{Exit, returns, throws}
use cucumber_cpp.Hook.Registrar.{
  Scenario, Hook, Hooks, tags_match, invoke_hook, and_then, exec_hooks, exec_before_hooks,
  exec_after_hooks, register_before_hook, register_after_hook,
}

-- The tags and the body of a registration.
abbrev pub Registered : Type 0 → Type 0
Registered S = Text × (S → Exit S)

module _ {S : Type 0} where
  -- The hooks of some registrations, made one after the other.
  abbrev pub register_all :
      (Text → (S → Exit S) → Hooks S → Hooks S) → List (Registered S) → Hooks S → Hooks S
  register_all register [] hs = hs
  register_all register ((csv, body) ∷ rs) hs = register_all register rs (register csv body hs)

  -- One registration: the body runs if the tags match.
  abbrev pub run_one : Option Scenario → Registered S → S → Exit S
  run_one scenario (csv, body) s =
      if tags_match scenario (and_tag_expression csv) then body s else returns s

  abbrev pub run_forward : Option Scenario → List (Registered S) → S → Exit S
  run_forward scenario [] s = returns s
  run_forward scenario (r ∷ rs) s = and_then (run_one scenario r s) (run_forward scenario rs)

  abbrev pub run_backward : Option Scenario → List (Registered S) → S → Exit S
  run_backward scenario [] s = returns s
  run_backward scenario (r ∷ rs) s = and_then (run_backward scenario rs s) (run_one scenario r)

  and_then_assoc :
      (e : Exit S) (f g : S → Exit S)
      → and_then (and_then e f) g ≡ and_then e (λ s. and_then (f s) g)
  and_then_assoc (returns s) f g = refl
  and_then_assoc (throws t s) f g = refl

  pub and_then-returns : (e : Exit S) → and_then e returns ≡ e
  and_then-returns (returns s) = refl
  and_then-returns (throws t s) = refl

  exec_hooks-append :
      (hooks : List (Hook S)) (h : Hook S) (scenario : Option Scenario) (s : S)
      → exec_hooks (hooks ++ h ∷ []) scenario s
        ≡ and_then (exec_hooks hooks scenario s) (invoke_hook scenario h)
  unfolding exec_hooks
  exec_hooks-append [] h scenario s = and_then-returns (invoke_hook scenario h s)
  exec_hooks-append (k ∷ hooks) h scenario s =
      ap (and_then (invoke_hook scenario k s)) (λ i s'. exec_hooks-append hooks h scenario s' i)
      ∙ sym (
          and_then_assoc (invoke_hook scenario k s) (exec_hooks hooks scenario)
            (invoke_hook scenario h))

  -- Registered before hooks run in the order of their registration, behind those that were there;
  -- an exception ends the row, and a hook whose tags do not match does nothing.
  pub exec_before_hooks-register_all :
      (scenario : Option Scenario) (rs : List (Registered S)) (hs : Hooks S) (s : S)
      → exec_before_hooks (register_all register_before_hook rs hs) scenario s
        ≡ and_then (exec_before_hooks hs scenario s) (run_forward scenario rs)
  unfolding exec_before_hooks register_before_hook invoke_hook
  exec_before_hooks-register_all scenario [] hs s =
      sym (and_then-returns (exec_hooks hs.before_hooks scenario s))
  exec_before_hooks-register_all scenario ((csv, body) ∷ rs) hs s =
      exec_before_hooks-register_all scenario rs (register_before_hook csv body hs) s
      ∙ (ap (λ e. and_then e (run_forward scenario rs))
            (exec_hooks-append hs.before_hooks
              (record { tag_expression = and_tag_expression csv; body = body }) scenario s)
          ∙ and_then_assoc (exec_hooks hs.before_hooks scenario s) (run_one scenario (csv, body))
              (run_forward scenario rs))

  -- Registered after hooks run in the reverse order of their registration, before those that were
  -- there; an exception ends the row, and a hook whose tags do not match does nothing.
  pub exec_after_hooks-register_all :
      (scenario : Option Scenario) (rs : List (Registered S)) (hs : Hooks S) (s : S)
      → exec_after_hooks (register_all register_after_hook rs hs) scenario s
        ≡ and_then (run_backward scenario rs s) (exec_after_hooks hs scenario)
  unfolding exec_after_hooks register_after_hook invoke_hook
  exec_after_hooks-register_all scenario [] hs s = refl
  exec_after_hooks-register_all scenario ((csv, body) ∷ rs) hs s =
      exec_after_hooks-register_all scenario rs (register_after_hook csv body hs) s
      ∙ sym (
          and_then_assoc (run_backward scenario rs s) (run_one scenario (csv, body))
            (exec_hooks hs.after_hooks scenario))
