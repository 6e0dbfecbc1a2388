-- ===== src/Examples/Showcase/Served.antt =====
-- What the server answers for a scenario of the showcase, and what the program writes.
use cucumber_cpp.Base.{
  ℕ, ◌≡◌, ◌∙◌, refl, sym, ap, none, some, List, [], ◌∷◌, ◌++◌, ◌>>=◌, append_assoc, append-nil, map,
  Text, All,
}
use cucumber_cpp.Expression.Error.{ok}
use cucumber_cpp.Expression.Types.{TypeMap}
use cucumber_cpp.Regex.{RegexEngine}
use cucumber_cpp.Step.Manager.{Registry}
use cucumber_cpp.Macros.Registration.{empty_registry}
use cucumber_cpp.Commands.{CukeCommands, with_world, close_scenario}
use cucumber_cpp.Engine.{engine_begin_scenario, engine_end_scenario}
use cucumber_cpp.Wire.Json.{Json}
use cucumber_cpp.Wire.Decoder.{WireCommand, begin_scenario_command, end_scenario_command}
use cucumber_cpp.Wire.Encoder.{success_response}
use cucumber_cpp.Wire.Handler.{
  Program, answer_call, answer_step, scenario_end, run_command, encode_answer, process_stream,
}
use cucumber_cpp.Wire.Invocation.{invoke_step-outcome}
use cucumber_cpp.Wire.Requests.{IsJson}
use cucumber_cpp.Wire.Session.{perform, no_hooks, texts, commands_of, Spoken, process_from-perform}
use cucumber_cpp.Examples.Showcase.{Written, register_showcase_hooks, register_showcase_steps}
use cucumber_cpp.Examples.Showcase.Lines.{wrote}
use cucumber_cpp.Examples.Showcase.Tagged.{showcase_hooks, showcase_hooks_registered}
use cucumber_cpp.Examples.Showcase.Session.{
  of_tags, begin_lines, step_lines, end_lines, begun, begin_scenario_lines, end_scenario_lines,
  invoke_lines,
}
use cucumber_cpp.Examples.Showcase.Scenario.{
  ShowStep, matcher_of, id_of, args_of, args_for, line_of, command_of, show_commands, steps_lines,
  info_of, show_registry, steps_registered, step_found, args_taken, small, info-Says,
}

abbrev Shown : Type 0
Shown = CukeCommands (List Text)

module _ (json : Json) (engine : RegexEngine) (uninitialised : ℕ) (file : Text) where
  abbrev success_line : Text
  success_line = encode_answer json (some success_response)

  abbrev program : Program (List Text)
  program = record {
    engine = engine;
    hooks = showcase_hooks;
    registry = show_registry file;
    uninitialised = uninitialised;
  }

  abbrev after_writing : List Text → Shown → Shown
  after_writing lines c = with_world c (wrote lines c.world)

  after_writing-nil : (c : Shown) → after_writing [] c ≡ c
  after_writing-nil c =
      ap (λ lines. with_world c (record c.world { user = lines })) (append-nil c.world.user)

  after_writing-append :
      (lines more : List Text) (c : Shown)
      → after_writing more (after_writing lines c) ≡ after_writing (lines ++ more) c
  after_writing-append lines more c =
      ap (λ all. with_world c (record c.world { user = all }))
        (append_assoc c.world.user lines more)

  run_command-begin :
      (tags : List Text) (c : Shown)
      → run_command program (begin_scenario_command tags) c
        ≡ some (some success_response, begun tags c)
  unfolding run_command engine_begin_scenario
  run_command-begin tags c =
      ap (λ o. some (answer_call (scenario_end o))) (begin_scenario_lines tags c)

  run_command-end :
      (tags : List Text) (c : Shown)
      → c.current_scenario ≡ of_tags tags
      → run_command program (end_scenario_command tags) c
        ≡ some (some success_response, close_scenario (after_writing (end_lines tags) c))
  unfolding run_command engine_end_scenario
  run_command-end tags c e =
      ap (λ o. some (answer_call (scenario_end o))) (end_scenario_lines tags c e)

  run_command-step :
      (step : ShowStep) (tags : List Text) (c : Shown)
      → c.current_scenario ≡ of_tags tags
      → run_command program (command_of step) c
        ≡ some (some success_response, after_writing (step_lines tags (line_of step)) c)
  unfolding run_command
  run_command-step step tags c e =
      ap (λ r. elim r [ none ↦ none | some end ↦ some (answer_step end) ])
        (invoke_step-outcome program (id_of step) (args_of step) [] (args_for file step) c
          (small file step) (args_taken file step)
          (invoke_lines (show_registry file) (id_of step) (info_of file step) (args_for file step)
            (line_of step) (step_found file step) (info-Says file step) tags c e))

  -- The steps are answered by lines of success, and write their lines.
  perform-steps :
      (tags : List Text) (steps : List ShowStep) (commands : List WireCommand) (c : Shown)
      → c.current_scenario ≡ of_tags tags
      → (lines : List Text) (c' : Shown)
      → perform json program commands (after_writing (steps_lines tags steps) c) ≡ some (lines, c')
      → perform json program (map command_of steps ++ commands) c
        ≡ some (map (λ step. success_line) steps ++ lines, c')
  perform-steps tags [] commands c e lines c' rest =
      ap (perform json program commands) (sym (after_writing-nil c)) ∙ rest
  perform-steps tags (step ∷ steps) commands c e lines c' rest =
      let c1 = after_writing (step_lines tags (line_of step)) c in
      let ih = perform-steps tags steps commands c1 e lines c' (
        ap (perform json program commands)
          (after_writing-append (step_lines tags (line_of step)) (steps_lines tags steps) c)
        ∙ rest) in
      rw (run_command-step step tags c e) (rw ih refl)

  -- What is written in a scenario, and the state behind it.
  abbrev pub scenario_written : List Text → List ShowStep → Shown → List Text
  scenario_written tags steps c =
      (c.world.user ++ begin_lines c.has_started tags) ++ (steps_lines tags steps ++ end_lines tags)

  abbrev pub all_success : List ShowStep → List Text
  all_success steps = success_line ∷ (map (λ step. success_line) steps ++ success_line ∷ [])

  abbrev behind_show : List Text → List ShowStep → Shown → Shown
  behind_show tags steps c =
      close_scenario
        (after_writing (end_lines tags) (after_writing (steps_lines tags steps) (begun tags c)))

  perform-show_commands :
      (tags : List Text) (steps : List ShowStep) (c : Shown)
      → perform json program (show_commands tags steps) c
        ≡ some (all_success steps, behind_show tags steps c)
  perform-show_commands tags steps c =
      let inside = after_writing (steps_lines tags steps) (begun tags c) in
      let ending : perform json program (end_scenario_command tags ∷ []) inside
          ≡ some (success_line ∷ [], behind_show tags steps c) =
        rw (run_command-end tags inside refl) refl in
      let steps =
        perform-steps tags steps (end_scenario_command tags ∷ []) (begun tags c) refl
          (success_line ∷ []) (behind_show tags steps c) ending in
      rw (run_command-begin tags c) (rw steps refl)

  -- The program: the hooks and the steps that the file registers.
  abbrev pub show_program : Registry Written → Program (List Text)
  show_program registry = record {
    engine = engine;
    hooks = register_showcase_hooks (no_hooks Written);
    registry = registry;
    uninitialised = uninitialised;
  }

  pub record Shows (types : TypeMap) (tags : List Text) (steps : List ShowStep)
      (requests : List Text) (c : Shown) : Type 0 where
    pub registry : Registry Written
    pub is_registered : register_showcase_steps engine types file empty_registry ≡ ok registry
    pub behind : Shown
    pub answers :
        process_stream json (show_program registry) requests c ≡ some (all_success steps, behind)
    pub written : behind.world.user ≡ scenario_written tags steps c

  -- The server answers each line of a scenario of the showcase by success, and the program writes,
  -- behind what was written before: the line of the before-all hook for the first scenario, that of
  -- the before hook without tags, and one more if the tags have foo or bar, and baz; for each step
  -- its line, between the two of the around-step hook with baz, and the after-step line with bar; and
  -- at the end the line for gherkin and then the one for foo. The matchers are regular expressions,
  -- and JSON values are read back as they were made.
  pub process_stream-show_commands :
      (laws : IsJson json) (types : TypeMap) (tags : List Text) (steps : List ShowStep)
      (spoken : List (Text × WireCommand)) (c : Shown)
      → ((step : ShowStep) → engine.regex_error (matcher_of step) ≡ none)
      → commands_of spoken ≡ show_commands tags steps
      → All (Spoken json) spoken
      → Shows types tags steps (texts spoken) c
  unfolding process_stream close_scenario
  process_stream-show_commands laws types tags steps spoken c good same s = record {
    registry = show_registry file;
    is_registered = steps_registered file engine types good;
    behind = behind_show tags steps c;
    answers =
        ap (λ hooks. process_stream json (record program { hooks = hooks }) (texts spoken) c)
          showcase_hooks_registered
        ∙ (process_from-perform json laws program spoken [] c s
            ∙ ap
                (λ commands. do
                  (lines, c') ← perform json program commands c
                  some ([] ++ lines, c'))
                same
            ∙ rw (perform-show_commands tags steps c) refl);
    written = append_assoc _ (steps_lines tags steps) (end_lines tags);
  }
