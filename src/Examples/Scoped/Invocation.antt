-- ===== src/Examples/Scoped/Invocation.antt =====
-- The result that GoogleTest's driver gives for a body that works on the object of its scope.
use cucumber_cpp.Base.{
  ℕ, ◌≡◌, ◌∙◌, refl, ap, Bool, true, false, Option, none, some, [], ◌∷◌, Text, codes,
}
use cucumber_cpp.Commands.{World}
use cucumber_cpp.Step.Body.{
  InvokeArgs, InvokeResult, success_result, failure_result, Thrown, runtime_error, other_exception,
  string_object, c_string, unknown_object, StepBody, run_body,
}
use cucumber_cpp.Step.Drivers.{gtest, gtest_step_body, invoke_step_body}
use cucumber_cpp.Step.Invoke.{describe, conclude, invoke}
use cucumber_cpp.Step.Outcome.{started}
use cucumber_cpp.Macros.{regex_param}
use cucumber_cpp.Examples.Scoped.{within_scope}
use cucumber_cpp.Examples.Scoped.Object.{current, body_end, Uses, run_body-within_scope}

-- The result of a step that throws, or comes to its end.
abbrev pub ending : Option Thrown → InvokeResult
ending none = success_result
ending (some thrown) = describe thrown

module _ {A : Type 0} (t : ℕ) (fresh : A) where
  -- The step gives a result, makes a value current, and leaves no scope behind.
  pub record Invokes (body : StepBody (World (ℕ → A))) (args : InvokeArgs) (w : World (ℕ → A))
      (result : InvokeResult) (x : A) : Type 0 where
    pub behind : World (ℕ → A)
    pub invoked : invoke gtest body args w ≡ (result, behind)
    pub uses : Uses t fresh x w behind

  conclude-body_end :
      (thrown : Option Thrown) (args : InvokeArgs) (n : ℕ) (w w' : World (ℕ → A))
      → conclude (
          gtest_step_body (
            body_end t fresh thrown
              (record (started args w) { current_arg_index = n; store = w' })))
        ≡ (ending thrown, w')
  unfolding gtest_step_body
  conclude-body_end none args n w w' = refl
  conclude-body_end (some (runtime_error what)) args n w w' = refl
  conclude-body_end (some (other_exception what)) args n w w' = refl
  conclude-body_end (some (string_object text)) args n w w' = refl
  conclude-body_end (some (c_string text)) args n w w' = refl
  conclude-body_end (some unknown_object) args n w w' = refl

  invoke-run_body :
      (body : StepBody (World (ℕ → A))) (args : InvokeArgs) (w : World (ℕ → A))
      → invoke gtest body args w ≡ conclude (gtest_step_body (run_body body (started args w)))
  unfolding invoke invoke_step_body
  invoke-run_body body args w = refl

  -- A body that is run from some argument on as one that works on the object.
  pub Invokes-run_body :
      (body : StepBody (World (ℕ → A))) (args : InvokeArgs) (n : ℕ) (w : World (ℕ → A))
      (action : A → A × Option Thrown)
      → run_body body (started args w)
        ≡ run_body (within_scope t fresh action) (record (started args w) { current_arg_index = n })
      → Invokes body args w (ending (action (current t fresh w)).1) (action (current t fresh w)).0
  Invokes-run_body body args n w action same =
      let (w', e, uses) =
        run_body-within_scope t fresh action (record (started args w) { current_arg_index = n }) in
      record {
        behind = w';
        invoked =
            invoke-run_body body args w
            ∙ ap (λ exit. conclude (gtest_step_body exit)) (same ∙ e)
            ∙ conclude-body_end (action (current t fresh w)).1 args n w w';
        uses = uses;
      }

  pub invoke-within_scope :
      (action : A → A × Option Thrown) (args : InvokeArgs) (w : World (ℕ → A))
      → Invokes
          (within_scope t fresh action)
          args
          w
          (ending (action (current t fresh w)).1)
          (action (current t fresh w)).0
  invoke-within_scope action args w =
      Invokes-run_body (within_scope t fresh action) args 0 w action refl

  module _ (converts : Text → Bool) (action : Text → A → A × Option Thrown) where
    abbrev with_param : StepBody (World (ℕ → A))
    with_param = regex_param converts λ arg. within_scope t fresh (action arg)

    pub invoke-regex_param :
        (args : InvokeArgs) (arg : Text) (w : World (ℕ → A))
        → args.args ≡ arg ∷ []
        → converts arg ≡ true
        → Invokes with_param args w
            (ending (action arg (current t fresh w)).1)
            (action arg (current t fresh w)).0
    unfolding regex_param run_body
    invoke-regex_param args arg w taken good =
        Invokes-run_body with_param args 1 w (action arg) (rw (taken, good) refl)

    pub invoke_unconverted :
        (args : InvokeArgs) (arg : Text) (w : World (ℕ → A))
        → args.args ≡ arg ∷ []
        → converts arg ≡ false
        → Invokes with_param args w
            (failure_result (codes "Cannot convert parameter"))
            (current t fresh w)
    unfolding regex_param run_body gtest_step_body
    invoke_unconverted args arg w taken bad = record {
      behind = w;
      invoked = invoke-run_body with_param args w ∙ rw (taken, bad) refl;
      uses = record { made = refl; held = refl };
    }
