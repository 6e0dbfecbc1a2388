-- ===== src/Examples/Calc/Session.antt =====
-- A scenario of calculator steps as the client speaks it to the server.
use cucumber_cpp.Base.{
  ℕ, ◌<◌, ◌≡◌, ◌∙◌, refl, ap, ap₂, none, some, List, [], ◌∷◌, ◌++◌, map, Text, arith, All,
}
use cucumber_cpp.Expression.Error.{ok}
use cucumber_cpp.Expression.Types.{TypeMap}
use cucumber_cpp.Regex.{RegexEngine}
use cucumber_cpp.Table.{empty_table}
use cucumber_cpp.Context.{purge_contexts}
use cucumber_cpp.Commands.{World, CukeCommands, close_scenario, with_world}
use cucumber_cpp.Step.Body.{InvokeArgs, InvokeResult, add_arg}
use cucumber_cpp.Step.Drivers.{gtest}
use cucumber_cpp.Step.Invoke.{invoke}
use cucumber_cpp.Step.Manager.{Registry, id_limit}
use cucumber_cpp.Engine.{command_args, add_args, fill_table}
use cucumber_cpp.Wire.Json.{Json}
use cucumber_cpp.Wire.Decoder.{WireCommand}
use cucumber_cpp.Wire.Encoder.{success_response}
use cucumber_cpp.Wire.Handler.{encode_answer, process_stream}
use cucumber_cpp.Wire.Invocation.{response_of}
use cucumber_cpp.Wire.Requests.{IsJson}
use cucumber_cpp.Wire.Session.{
  StepCall, IsCall, hookless, texts, commands_of, Spoken, in_scenario, scenario_commands, told_all,
  process_stream-scenario,
}
use cucumber_cpp.Macros.Registration.{empty_registry}
use cucumber_cpp.Examples.Scoped.Object.{current, current-purge_contexts}
use cucumber_cpp.Examples.Calc.{Doubles}
use cucumber_cpp.Examples.Calc.Steps.{Checks, CalcCtx, new_ctx}
use cucumber_cpp.Examples.Calc.Machine.{
  CalcStep, enter, press_plus, press_by, expect, calc_step, calc_run,
}
use cucumber_cpp.Examples.Calc.Feature.{
  Style, matcher_of, id_of, args_of, info_of, register_steps, calc_registry, registered, found,
}
use cucumber_cpp.Examples.Calc.Refinement.{info-Ends}

-- The line that tells a result.
abbrev pub result_line : Json → InvokeResult → Text
result_line json result = encode_answer json (some (response_of result.type result.description))

module _ (d : Doubles) (checks : Checks d) (t : ℕ) (style : Style) (file : Text) where
  abbrev pub args_for : CalcStep → InvokeArgs
  args_for step = record { table_arg = empty_table; args = args_of step }

  -- What the client sends for a line of the feature.
  abbrev pub call_of : CalcStep → StepCall (ℕ → CalcCtx d)
  call_of step = record {
    id = id_of step;
    args = args_of step;
    table_arg = [];
    step = info_of d checks t style file step;
    taken = args_for step;
  }

  taken_args : (step : CalcStep) → command_args (args_of step) [] ≡ some (args_for step)
  unfolding command_args add_args add_arg fill_table
  taken_args (enter n) = refl
  taken_args press_plus = refl
  taken_args press_by = refl
  taken_args (expect n) = refl

  small : (step : CalcStep) → id_of step < id_limit
  small (enter n) = omega arith
  small press_plus = omega arith
  small press_by = omega arith
  small (expect n) = omega arith

  calls-IsCall :
      (engine : RegexEngine) (types : TypeMap) (steps : List CalcStep)
      → All (IsCall (calc_registry d checks t engine types file style)) (map call_of steps)
  calls-IsCall engine types [] = tt
  calls-IsCall engine types (step ∷ steps) = (
    (small step, found d checks t engine types file style step, taken_args step),
    calls-IsCall engine types steps,
  )

  -- The lines tell the results of the machine, whose object is current behind them, and no scope is
  -- left.
  record Tells (json : Json) (steps : List CalcStep) (c : CukeCommands (ℕ → CalcCtx d))
      (answers : List Text × CukeCommands (ℕ → CalcCtx d)) : Type 0 where
    lines :
        answers.0
        ≡ map (result_line json) (calc_run d checks steps (current t (new_ctx d) c.world)).0
    reached :
        current t (new_ctx d) answers.1.world
        ≡ (calc_run d checks steps (current t (new_ctx d) c.world)).1
    held : answers.1.world.contexts.held ≡ c.world.contexts.held

  told_all-Tells :
      (json : Json) (steps : List CalcStep) (c : CukeCommands (ℕ → CalcCtx d))
      → Tells json steps c (told_all json (map call_of steps) c)
  told_all-Tells json [] c = record { lines = refl; reached = refl; held = refl }
  told_all-Tells json (step ∷ steps) c =
      let body = (info_of d checks t style file step).body in
      let p : InvokeResult × World (ℕ → CalcCtx d) = invoke gtest body (args_for step) c.world in
      let first = info-Ends d checks t style file step (args_for step) c.world refl in
      let behind : current t (new_ctx d) p.1
          ≡ (calc_step d checks step (current t (new_ctx d) c.world)).1 =
        ap (λ q. current t (new_ctx d) q.1) first.invoked ∙ first.uses.made in
      let rest = told_all-Tells json steps (with_world c p.1) in
      record {
        lines =
            ap₂ (◌∷◌) (ap (λ q. result_line json q.0) first.invoked)
              (rest.lines ∙ ap (λ x. map (result_line json) (calc_run d checks steps x).0) behind);
        reached = rest.reached ∙ ap (λ x. (calc_run d checks steps x).1) behind;
        held = rest.held ∙ ap (λ q. q.1.contexts.held) first.invoked ∙ first.uses.held;
      }

  -- The lines of the answers to a scenario.
  abbrev pub calc_lines : Json → List CalcStep → CalcCtx d → List Text
  calc_lines json steps ctx =
      encode_answer json (some success_response)
      ∷ (map (result_line json) (calc_run d checks steps ctx).0
          ++ encode_answer json (some success_response) ∷ [])

  -- A scenario is answered, and behind it no scope is left and the next object is new.
  pub record Answered (json : Json) (engine : RegexEngine) (types : TypeMap) (uninitialised : ℕ)
      (steps : List CalcStep) (requests : List Text) (c : CukeCommands (ℕ → CalcCtx d))
      : Type 0 where
    pub registry : Registry (World (ℕ → CalcCtx d))
    pub is_registered :
        register_steps d checks t engine types file style empty_registry ≡ ok registry
    pub behind : CukeCommands (ℕ → CalcCtx d)
    pub answers :
        process_stream json (hookless engine registry uninitialised) requests c
        ≡ some (calc_lines json steps (current t (new_ctx d) c.world), behind)
    pub is_new : current t (new_ctx d) behind.world ≡ new_ctx d
    pub held : behind.world.contexts.held ≡ []

  -- Without hooks, the server answers a scenario of calculator steps, from either file of step
  -- definitions, by a line of success, the lines of the results that the calculator's machine gives on the
  -- object that is current, and a line of success; behind it the next scope has a new object. The
  -- matchers are regular expressions, no scope is alive before, and JSON values are read back as
  -- they were made.
  pub process_stream-calc_run :
      (json : Json) (laws : IsJson json) (engine : RegexEngine) (types : TypeMap)
      (uninitialised : ℕ) (tags : List Text) (steps : List CalcStep)
      (spoken : List (Text × WireCommand)) (c : CukeCommands (ℕ → CalcCtx d))
      → ((step : CalcStep) → engine.regex_error (matcher_of step) ≡ none)
      → commands_of spoken ≡ scenario_commands tags (map call_of steps)
      → All (Spoken json) spoken
      → c.world.contexts.held ≡ []
      → Answered json engine types uninitialised steps (texts spoken) c
  unfolding close_scenario purge_contexts
  process_stream-calc_run json laws engine types uninitialised tags steps spoken c good same s h =
      let told : Tells json steps (in_scenario tags c)
          (told_all json (map call_of steps) (in_scenario tags c)) =
        told_all-Tells json steps (in_scenario tags c) in
      record {
        registry = calc_registry d checks t engine types file style;
        is_registered = registered d checks t engine types file style good;
        behind = close_scenario (told_all json (map call_of steps) (in_scenario tags c)).1;
        answers =
            process_stream-scenario json laws engine
              (calc_registry d checks t engine types file style) uninitialised tags
              (map call_of steps) c (calls-IsCall engine types steps) spoken same s
            ∙ ap
                (λ lines. some (
                  encode_answer json (some success_response)
                      ∷ (lines ++ encode_answer json (some success_response) ∷ []),
                  close_scenario (told_all json (map call_of steps) (in_scenario tags c)).1,
                ))
                told.lines;
        is_new =
            current-purge_contexts t (new_ctx d)
              (told_all json (map call_of steps) (in_scenario tags c)).1.world (told.held ∙ h);
        held = told.held ∙ h;
      }
