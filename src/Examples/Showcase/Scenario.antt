-- ===== src/Examples/Showcase/Scenario.antt =====
-- A scenario of the showcase as the client speaks it to the server.
use cucumber_cpp.Base.{ℕ, ◌<◌, ◌≡◌, refl, none, some, List, [], ◌∷◌, ◌++◌, map, Text, codes, arith}
use cucumber_cpp.Expression.Error.{ok}
use cucumber_cpp.Expression.Types.{TypeMap}
use cucumber_cpp.Regex.{RegexEngine}
use cucumber_cpp.Table.{empty_table}
use cucumber_cpp.Step.Body.{InvokeArgs, add_arg, run_body}
use cucumber_cpp.Step.Drivers.{gtest, invoke_step_body, gtest_step_body}
use cucumber_cpp.Step.Invoke.{invoke}
use cucumber_cpp.Step.Manager.{StepInfo, Registry, id_limit, to_source_string, add_step, get_step}
use cucumber_cpp.Macros.{no_types, cuke_object, regex_param}
use cucumber_cpp.Macros.Registration.{empty_registry, cuke_step_plain}
use cucumber_cpp.Engine.{id_to_string, command_args, add_args, fill_table}
use cucumber_cpp.Wire.Decoder.{
  WireCommand, begin_scenario_command, end_scenario_command, invoke_command,
}
use cucumber_cpp.Examples.Showcase.{
  Written, print, not_tagged, tagged_with, register_showcase_steps,
}
use cucumber_cpp.Examples.Showcase.Session.{step_lines, Says}

-- The lines of the feature, by the text behind `tagged with`.
pub data ShowStep : Type 0 where
  untagged : ShowStep
  tagged : Text → ShowStep

abbrev pub matcher_of : ShowStep → Text
matcher_of untagged = codes "^I'm running a step from a scenario not tagged$"
matcher_of (tagged tags) = codes "^I'm running a step from a scenario tagged with (.*)$"

abbrev pub id_of : ShowStep → ℕ
id_of untagged = 1
id_of (tagged tags) = 2

abbrev pub args_of : ShowStep → List Text
args_of untagged = []
args_of (tagged tags) = tags ∷ []

abbrev pub line_of : ShowStep → Text
line_of untagged = codes "Running step from scenario without tags"
line_of (tagged tags) = codes "Running step from scenario with tags: " ++ tags

abbrev pub command_of : ShowStep → WireCommand
command_of step = invoke_command (id_to_string (id_of step)) (args_of step) []

-- The begin of a scenario, its steps, and its end.
abbrev pub show_commands : List Text → List ShowStep → List WireCommand
show_commands tags steps =
    begin_scenario_command tags ∷ (map command_of steps ++ end_scenario_command tags ∷ [])

-- What the program writes.
abbrev pub steps_lines : List Text → List ShowStep → List Text
steps_lines tags [] = []
steps_lines tags (step ∷ steps) = step_lines tags (line_of step) ++ steps_lines tags steps

module _ (file : Text) where
  abbrev pub info_of : ShowStep → StepInfo Written
  info_of untagged = record {
    id = 1;
    regex = matcher_of untagged;
    source = to_source_string file 49;
    step_def = matcher_of untagged;
    driver = gtest;
    body = cuke_object no_types not_tagged;
  }
  info_of (tagged tags) = record {
    id = 2;
    regex = matcher_of (tagged []);
    source = to_source_string file 54;
    step_def = matcher_of (tagged []);
    driver = gtest;
    body = cuke_object no_types tagged_with;
  }

  abbrev pub show_registry : Registry Written
  show_registry = record { current_id = 2; steps = info_of untagged ∷ info_of (tagged []) ∷ [] }

  pub steps_registered :
      (engine : RegexEngine) (types : TypeMap)
      → ((step : ShowStep) → engine.regex_error (matcher_of step) ≡ none)
      → register_showcase_steps engine types file empty_registry ≡ ok show_registry
  unfolding register_showcase_steps add_step
  steps_registered engine types good =
      rw
        (
          cuke_step_plain engine types gtest file 49 no_types _ _ (good untagged),
          cuke_step_plain engine types gtest file 54 no_types _ _ (good (tagged [])),
        )
        refl

  pub step_found :
      (step : ShowStep) → get_step (id_of step) show_registry.steps ≡ some (info_of step)
  unfolding get_step
  step_found untagged = refl
  step_found (tagged tags) = refl

  abbrev pub args_for : ShowStep → InvokeArgs
  args_for step = record { table_arg = empty_table; args = args_of step }

  pub args_taken : (step : ShowStep) → command_args (args_of step) [] ≡ some (args_for step)
  unfolding command_args add_args add_arg fill_table
  args_taken untagged = refl
  args_taken (tagged tags) = refl

  pub small : (step : ShowStep) → id_of step < id_limit
  small untagged = omega arith
  small (tagged tags) = omega arith

  pub info-Says : (step : ShowStep) → Says (info_of step) (args_for step) (line_of step)
  unfolding invoke invoke_step_body gtest_step_body cuke_object not_tagged tagged_with run_body
      regex_param print
  info-Says untagged w = refl
  info-Says (tagged tags) w = refl
