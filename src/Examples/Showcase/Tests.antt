-- ===== src/Examples/Showcase/Tests.antt =====
-- A scenario of the showcase with the tags baz and foo, and two steps.
use cucumber_cpp.Base.{◌≡◌, refl, List, [], ◌∷◌, none, Text, codes, All}
use cucumber_cpp.Regex.{RegexEngine}
use cucumber_cpp.Commands.{CukeCommands, initial}
use cucumber_cpp.Wire.Json.{Json}
use cucumber_cpp.Wire.Decoder.{WireCommand}
use cucumber_cpp.Wire.Session.{texts, Spoken}
use cucumber_cpp.Wire.Tests.{values, values-IsJson, speak, answer}
use cucumber_cpp.Examples.Showcase.Scenario.{ShowStep, untagged, tagged, show_commands}
use cucumber_cpp.Examples.Showcase.Served.{Shows, scenario_written, process_stream-show_commands}

abbrev engine : RegexEngine
engine = record { regex_error = λ r. none; regex_search = λ r s. none; regex_tokens = λ r s. [] }

abbrev tags : List Text
tags = codes "baz" ∷ codes "foo" ∷ []

abbrev steps : List ShowStep
steps = untagged ∷ tagged (codes "@baz") ∷ []

abbrev idle : CukeCommands (List Text)
idle = initial (record {
  contexts = record { contexts = []; held = []; references = λ t. none; next_object = 0 };
  user = [];
})

abbrev spoken : List (Text × WireCommand)
spoken = speak b'a' (show_commands tags steps)

abbrev json : Json
json = values λ text. answer text spoken

spoken-Spoken : All (Spoken json) spoken
spoken-Spoken = ((tt, refl), ((tt, refl), ((tt, refl), ((tt, refl), tt))))

process_stream-show_commands_example :
    Shows json engine 0 (codes "f.cpp") [] tags steps (texts spoken) idle
process_stream-show_commands_example =
    process_stream-show_commands json engine 0 (codes "f.cpp")
      (values-IsJson λ text. answer text spoken) [] tags steps spoken idle (λ step. refl) refl
      spoken-Spoken

written_example :
    scenario_written json engine 0 (codes "f.cpp") tags steps idle
    ≡ codes "-------------------- (Before all scenarios)"
      ∷ codes "-------------------- (Before any scenario)"
      ∷ codes "Before scenario (\"@foo,@baz\",\"@bar\")"
      ∷ codes "Around step (\"@baz\") ...before"
      ∷ codes "Running step from scenario without tags"
      ∷ codes "Around step (\"@baz\") ..after"
      ∷ codes "Around step (\"@baz\") ...before"
      ∷ codes "Running step from scenario with tags: @baz"
      ∷ codes "Around step (\"@baz\") ..after"
      ∷ codes "After scenario (\"@foo\")"
      ∷ []
written_example = refl
