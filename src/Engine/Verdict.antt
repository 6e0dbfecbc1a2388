-- ===== src/Engine/Verdict.antt =====
-- What `CukeEngineImpl::invokeStep` reports of a step.
use cucumber_cpp.Base.{ℕ, ◌≡◌, refl, Option, none, some, List, Text}
use cucumber_cpp.Step.Body.{InvokeArgs, Exit, returns, throws}
use cucumber_cpp.Step.Manager.{Registry, get_step}
use cucumber_cpp.Hook.Registrar.{Hooks}
use cucumber_cpp.Hook.Chain.{StepCallChain}
use cucumber_cpp.Hook.Chain.Total.{EndsWithin, ended, raised, exec_step_chain-EndsWithin}
use cucumber_cpp.Commands.{World, CukeCommands, after_chain, invoke}
use cucumber_cpp.Engine.{invoke_with, invoke_step, conclude_step, convert_id, command_args}

-- That a run produced a value.
abbrev pub Answers : {A : Type 0} → Option A → Type 0
Answers {A} o = (a : A) × (o ≡ some a)

EndsWithin-Answers :
    {S : Type 0} {n : ℕ} {o : Option (Exit (StepCallChain S))} → EndsWithin n o → Answers o
EndsWithin-Answers (ended c l) = (returns c, refl)
EndsWithin-Answers (raised t c l) = (throws t c, refl)

-- A value is passed on by a function.
pub Answers-then :
    {A B : Type 0} (o : Option A) (f : A → B)
    → Answers o
    → Answers {A = B} (elim o [ none ↦ none | some a ↦ some (f a) ])
Answers-then none f (a, h) = absurd cc
Answers-then (some a) f h = (f a, refl)

module _ {U : Type 0} (hooks : Hooks (World U)) (registry : Registry (World U)) where
  -- `CukeCommands::invoke` ends, whatever the hooks and the step do.
  pub invoke-Answers :
      (id : ℕ) (args : InvokeArgs) (c : CukeCommands U) → Answers (invoke hooks registry id args c)
  unfolding invoke
  invoke-Answers id args c = Answers-then _ (after_chain hooks c) (
      EndsWithin-Answers (
        exec_step_chain-EndsWithin c.current_scenario (get_step id registry.steps) args
          hooks.around_step_hooks c.world))

  invoke_with-Answers :
      (id : ℕ) (args : Option InvokeArgs) (c : CukeCommands U)
      → Answers (invoke_with hooks registry id args c)
  unfolding invoke_with
  invoke_with-Answers id none c = (_, refl)
  invoke_with-Answers id (some args) c = Answers-then _ conclude_step (invoke-Answers id args c)

  -- `invokeStep` ends by a return or an `InvokeException`.
  pub invoke_step-Answers :
      (uninitialised : ℕ) (id : Text) (args : List Text) (table_arg : List (List Text))
      (c : CukeCommands U)
      → Answers (invoke_step hooks registry uninitialised id args table_arg c)
  unfolding invoke_step
  invoke_step-Answers uninitialised id args table_arg c =
      invoke_with-Answers (convert_id uninitialised id) (command_args args table_arg) c
