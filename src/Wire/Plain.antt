-- ===== src/Wire/Plain.antt =====
-- A program without hooks, as an engine on the world alone: no scenario, no tags, no chain of hooks.
use cucumber_cpp.Base.{
  ℕ, ◌≡◌, refl, sym, ap, subst, true, false, Option, none, some, List, [], Text, codes,
}
use cucumber_cpp.Context.{purge_contexts}
use cucumber_cpp.Regex.{RegexEngine}
use cucumber_cpp.Step.Body.{
  InvokeArgs, InvokeResult, InvokeResultType, success, failure, pending, default_result, returns,
}
use cucumber_cpp.Step.Invoke as Step
use cucumber_cpp.Step.Manager.{StepInfo, Registry, get_step}
use cucumber_cpp.Hook.Registrar.{
  Scenario, exec_before_hooks, exec_before_all_hooks, exec_after_hooks, exec_after_step_hooks,
  exec_hooks,
}
use cucumber_cpp.Hook.Chain.{exec_step, exec_step_chain, exec_next}
use cucumber_cpp.Commands
use cucumber_cpp.Commands.{
  World, CukeCommands, Outcome, with_world, start, begin_scenario, end_scenario, close_scenario,
  after_chain,
}
use cucumber_cpp.Engine.{
  StepEnd, completed, thrown, invoke_exception, invoke_failure_exception, pending_step_exception,
  returned, CukeEngine, engine_step_matches, engine_begin_scenario, engine_end_scenario,
  engine_snippet_text, convert_id, command_args, invoke_with, invoke_step, verdict_of,
  conclude_step,
}
use cucumber_cpp.Wire.Json.{Json}
use cucumber_cpp.Wire.Handler.{
  json_wire_message_codec, wire_protocol_handler, cuke_engine_impl, process_lines, process_stream,
}
use cucumber_cpp.Wire.Session.{no_hooks, hookless}
use cucumber_cpp.Wire.Simulation.{Simulates, SameCall, SameStep, Same, process_lines-Same}

module _ {U : Type 0} where
  abbrev pub HasWorld : CukeCommands U → World U → Type 0
  HasWorld c w = c.world ≡ w

  -- An id without a step is a failure without a description.
  abbrev pub plain_run : Option (StepInfo (World U)) → InvokeArgs → World U → InvokeResult × World U
  plain_run none a w = (default_result, w)
  plain_run (some s) a w = Step.invoke s.driver s.body a w

  abbrev pub plain_verdict : InvokeResultType → Text → World U → StepEnd (World U)
  plain_verdict success description w = completed w
  plain_verdict failure description w = thrown (invoke_failure_exception description []) w
  plain_verdict pending description w = thrown (pending_step_exception description) w

  abbrev pub plain_end : InvokeResult × World U → StepEnd (World U)
  plain_end (result, w) = plain_verdict result.type result.description w

  abbrev pub plain_invoke :
      Option (StepInfo (World U)) → Option InvokeArgs → World U → StepEnd (World U)
  plain_invoke step none w = thrown (invoke_exception (codes "Unable to decode arguments")) w
  plain_invoke step (some a) w = plain_end (plain_run step a w)

  module _ (engine : RegexEngine) (registry : Registry (World U)) (uninitialised : ℕ) where
    abbrev pub plain_engine : CukeEngine (World U)
    plain_engine = record {
      step_matches = λ name w. engine_step_matches engine registry name;
      begin_scenario = λ tags w. returned w;
      invoke_step = λ id args table_arg w. some (
          plain_invoke (get_step (convert_id uninitialised id) registry.steps)
            (command_args args table_arg) w);
      end_scenario = λ tags w. returned (record w { contexts = purge_contexts w.contexts });
      snippet_text = λ keyword name multiline_arg_class w.
          engine_snippet_text keyword name multiline_arg_class;
    }

    abbrev program_engine : CukeEngine (CukeCommands U)
    program_engine = cuke_engine_impl (hookless engine registry uninitialised)

    plain_begins :
        (tags : List Text) (c : CukeCommands U)
        → SameCall HasWorld
            (program_engine.begin_scenario tags c)
            (plain_engine.begin_scenario tags c.world)
    unfolding cuke_engine_impl engine_begin_scenario begin_scenario start exec_before_hooks
        exec_before_all_hooks
    plain_begins tags c =
        elim c.has_started
          as (λ b.
            let c1 : CukeCommands U = record c { has_started = b } in
            SameCall HasWorld (program_engine.begin_scenario tags c1)
              (plain_engine.begin_scenario tags c1.world)) [ true ↦ refl | false ↦ refl ]

    plain_ends :
        (tags : List Text) (c : CukeCommands U)
        → SameCall HasWorld
            (program_engine.end_scenario tags c)
            (plain_engine.end_scenario tags c.world)
    unfolding cuke_engine_impl engine_end_scenario end_scenario exec_after_hooks close_scenario
    plain_ends tags c = refl

    -- A chain without hooks runs the step.
    chain_plain :
        (scenario : Option Scenario) (step : Option (StepInfo (World U))) (a : InvokeArgs)
        (w : World U)
        → exec_step_chain scenario step a [] w
          ≡ some (
              returns (record {
                next_hooks = [];
                result = (plain_run step a w).0;
                store = (plain_run step a w).1;
              }))
    unfolding exec_step_chain exec_next exec_step
    chain_plain scenario none a w = refl
    chain_plain scenario (some s) a w = refl

    verdict_plain :
        (type : InvokeResultType) (description : Text) (c : CukeCommands U) (w : World U)
        → SameStep HasWorld
            (some (verdict_of type description (with_world c w)))
            (some (plain_verdict type description w))
    verdict_plain success description c w = refl
    verdict_plain failure description c w = (refl, refl)
    verdict_plain pending description c w = (refl, refl)

    invoke_done :
        (id : ℕ) (a : InvokeArgs) (c : CukeCommands U)
        → Commands.invoke (no_hooks (World U)) registry id a c
          ≡ some (
              Outcome.done
                (plain_run (get_step id registry.steps) a c.world).0
                (with_world c (plain_run (get_step id registry.steps) a c.world).1))
    unfolding Commands.invoke exec_after_step_hooks exec_hooks
    invoke_done id a c =
        ap
          (λ e. elim e [ none ↦ none | some exit ↦ some (after_chain (no_hooks (World U)) c exit) ])
          (chain_plain c.current_scenario (get_step id registry.steps) a c.world)

    invoke_plain :
        (id : ℕ) (a : Option InvokeArgs) (c : CukeCommands U)
        → SameStep HasWorld
            (invoke_with (no_hooks (World U)) registry id a c)
            (some (plain_invoke (get_step id registry.steps) a c.world))
    unfolding invoke_with
    invoke_plain id none c = (refl, refl)
    invoke_plain id (some a) c =
        let p = plain_run (get_step id registry.steps) a c.world in
        subst
          (λ o.
            SameStep HasWorld (elim o [ none ↦ none | some outcome ↦ some (conclude_step outcome) ])
              (some (plain_end p)))
          (sym (invoke_done id a c)) (verdict_plain p.0.type p.0.description c p.1)

    at_world :
        (A : CukeCommands U → World U → Type 0)
        → ((c : CukeCommands U) → A c c.world)
        → (c : CukeCommands U) (w : World U) → c.world ≡ w
        → A c w
    at_world A h c w e = subst (A c) e (h c)

    program-Simulates : Simulates HasWorld program_engine plain_engine
    unfolding cuke_engine_impl invoke_step
    program-Simulates = record {
      matches = λ name c w h. refl;
      begins = λ tags.
          at_world
            (λ c w.
              SameCall HasWorld (program_engine.begin_scenario tags c)
                (plain_engine.begin_scenario tags w))
            (plain_begins tags);
      invokes = λ id args table_arg.
          at_world
            (λ c w.
              SameStep HasWorld (program_engine.invoke_step id args table_arg c)
                (plain_engine.invoke_step id args table_arg w))
            (invoke_plain (convert_id uninitialised id) (command_args args table_arg));
      ends = λ tags.
          at_world
            (λ c w.
              SameCall HasWorld (program_engine.end_scenario tags c)
                (plain_engine.end_scenario tags w))
            (plain_ends tags);
      snippets = λ keyword name multiline_arg_class c w h. refl;
    }

    -- Without hooks, the server answers any request lines as the engine on the world alone does,
    -- and leaves the same world: whether a scenario has begun, its tags, and the order of begins
    -- and ends make no difference but for the purge of the contexts.
    pub process_stream-plain_engine :
        (json : Json) (requests : List Text) (c : CukeCommands U)
        → Same HasWorld (process_stream json (hookless engine registry uninitialised) requests c) (
            process_lines
              (wire_protocol_handler (json_wire_message_codec json) plain_engine)
              requests
              []
              c.world)
    unfolding process_stream
    process_stream-plain_engine json requests c =
        process_lines-Same HasWorld program_engine plain_engine program-Simulates
          (json_wire_message_codec json) requests [] c c.world refl
