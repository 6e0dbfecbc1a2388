-- ===== src/Wire/Invocation.antt =====
-- What the client is told of a step without around-step and after-step hooks.
use cucumber_cpp.Base.{ℕ, ◌<◌, ◌≡◌, ◌∙◌, refl, ap, none, some, List, [], Text}
use cucumber_cpp.Step.Body.{InvokeArgs, InvokeResult, InvokeResultType, success, failure, pending}
use cucumber_cpp.Step.Invoke as Step
use cucumber_cpp.Step.Manager.{StepInfo, id_limit, get_step}
use cucumber_cpp.Hook.Registrar.{exec_after_step_hooks, exec_hooks}
use cucumber_cpp.Hook.Chain.{exec_step, exec_step_chain, exec_next}
use cucumber_cpp.Commands
use cucumber_cpp.Commands.{Outcome, World, CukeCommands, with_world, after_chain}
use cucumber_cpp.Engine.{
  id_to_string, command_args, invoke_with, invoke_step, conclude_step, verdict_of,
}
use cucumber_cpp.Engine.Ids.{convert_id-id_to_string}
use cucumber_cpp.Wire.Decoder.{invoke_command}
use cucumber_cpp.Wire.Encoder.{WireResponse, success_response, failure_response, pending_response}
use cucumber_cpp.Wire.Handler.{Program, Ran, run_command, answer_step}

-- The response to a result.
abbrev pub response_of : InvokeResultType → Text → WireResponse
response_of success description = success_response
response_of failure description = failure_response description []
response_of pending description = pending_response description

module _ {U : Type 0} where
  -- The result of the step, and the state behind it.
  abbrev pub outcome : StepInfo (World U) → InvokeArgs → CukeCommands U → Outcome U InvokeResult
  outcome s a c =
      let (result, w) = Step.invoke s.driver s.body a c.world in
      Outcome.done result (with_world c w)

  -- The response, and the state behind the step.
  abbrev pub told : StepInfo (World U) → InvokeArgs → CukeCommands U → Ran (CukeCommands U)
  told s a c =
      let (result, w) = Step.invoke s.driver s.body a c.world in
      (some (response_of result.type result.description), with_world c w)

  answer_step-outcome :
      (s : StepInfo (World U)) (a : InvokeArgs) (c : CukeCommands U)
      → answer_step (conclude_step (outcome s a c)) ≡ told s a c
  answer_step-outcome s a c = by_type result.type result.description
    where
      result : InvokeResult
      result = (Step.invoke s.driver s.body a c.world).0

      behind : CukeCommands U
      behind = with_world c (Step.invoke s.driver s.body a c.world).1

      by_type :
          (type : InvokeResultType) (description : Text)
          → answer_step (verdict_of type description behind)
            ≡ (some (response_of type description), behind)
      by_type success description = refl
      by_type failure description = refl
      by_type pending description = refl

  module _ (p : Program U) where
    invoke-outcome :
        (id : ℕ) (s : StepInfo (World U)) (a : InvokeArgs) (c : CukeCommands U)
        → p.hooks.around_step_hooks ≡ []
        → p.hooks.after_step_hooks ≡ []
        → get_step id p.registry.steps ≡ some s
        → Commands.invoke p.hooks p.registry id a c ≡ some (outcome s a c)
    unfolding Commands.invoke exec_step_chain exec_next exec_step exec_after_step_hooks exec_hooks
    invoke-outcome id s a c around after found = rw (around, after, found) refl

    pub invoke_step-outcome :
        (id : ℕ) (args : List Text) (table_arg : List (List Text)) (a : InvokeArgs)
        (c : CukeCommands U) {o : Outcome U InvokeResult}
        → id < id_limit
        → command_args args table_arg ≡ some a
        → Commands.invoke p.hooks p.registry id a c ≡ some o
        → invoke_step p.hooks p.registry p.uninitialised (id_to_string id) args table_arg c
          ≡ some (conclude_step o)
    unfolding invoke_step invoke_with
    invoke_step-outcome id args table_arg a c small taken h =
        (λ i.
          invoke_with p.hooks p.registry (convert_id-id_to_string p.uninitialised id small i)
            (taken i) c)
        ∙ ap (λ r. elim r [ none ↦ none | some outcome ↦ some (conclude_step outcome) ]) h

    -- Without around-step and after-step hooks, an invoke command with the id of a registered step
    -- and arguments that are taken runs the step once on the current world, and the response tells
    -- its result.
    pub run_command-told :
        (id : ℕ) (args : List Text) (table_arg : List (List Text)) (s : StepInfo (World U))
        (a : InvokeArgs) (c : CukeCommands U)
        → p.hooks.around_step_hooks ≡ []
        → p.hooks.after_step_hooks ≡ []
        → id < id_limit
        → get_step id p.registry.steps ≡ some s
        → command_args args table_arg ≡ some a
        → run_command p (invoke_command (id_to_string id) args table_arg) c ≡ some (told s a c)
    unfolding run_command
    run_command-told id args table_arg s a c around after small found taken =
        ap (λ r. elim r [ none ↦ none | some end ↦ some (answer_step end) ])
          (invoke_step-outcome id args table_arg a c small taken
            (invoke-outcome id s a c around after found))
        ∙ ap some (answer_step-outcome s a c)
