-- ===== src/Wire/Session/Tests.antt =====
-- A scenario with one call of a step, as three lines.
use cucumber_cpp.Base.{
  ℕ, ◌≡◌, refl, arith, Option, none, some, List, [], ◌∷◌, if◌then◌else◌, Text, codes, equal, All,
}
use cucumber_cpp.Regex.{RegexEngine}
use cucumber_cpp.Step.Manager.{Registry, get_step}
use cucumber_cpp.Commands.{World, close_scenario}
use cucumber_cpp.Engine.{id_to_string}
use cucumber_cpp.Wire.Json.{Json}
use cucumber_cpp.Wire.Decoder.{
  WireCommand, begin_scenario_command, end_scenario_command, invoke_command,
}
use cucumber_cpp.Wire.Requests.{request}
use cucumber_cpp.Wire.Handler.{
  json_wire_message_codec, wire_protocol_handler, process_lines, process_stream,
}
use cucumber_cpp.Wire.Simulation.{Same}
use cucumber_cpp.Wire.Plain.{HasWorld, plain_engine, process_stream-plain_engine}
use cucumber_cpp.Wire.Tests.{Tree, values, values-IsJson, counting, one_arg, taken, idle}
use cucumber_cpp.Wire.Session.{
  StepCall, IsCall, hookless, texts, Spoken, in_scenario, scenario_lines, told_all,
  process_stream-scenario,
}

abbrev engine : RegexEngine
engine = record { regex_error = λ r. none; regex_search = λ r s. none; regex_tokens = λ r s. [] }

abbrev registry : Registry (World ℕ)
registry = record { current_id = 1; steps = counting ∷ [] }

abbrev calls : List (StepCall ℕ)
calls =
    record { id = 1; args = codes "p" ∷ []; table_arg = []; step = counting; taken = one_arg } ∷ []

found : get_step 1 registry.steps ≡ some counting
unfolding get_step
found = refl

calls-IsCall : All (IsCall registry) calls
calls-IsCall = ((omega arith, found, taken), tt)

abbrev begin : WireCommand
begin = begin_scenario_command (codes "t" ∷ [])

abbrev invocation : WireCommand
invocation = invoke_command (id_to_string 1) (codes "p" ∷ []) []

abbrev ending : WireCommand
ending = end_scenario_command (codes "t" ∷ [])

-- A parser that knows the three lines.
abbrev parse : Text → Option Tree
parse text =
    if equal text (codes "b")
    then some (request (values λ _. none) begin)
    else if equal text (codes "i")
    then some (request (values λ _. none) invocation)
    else some (request (values λ _. none) ending)

abbrev json : Json
json = values parse

abbrev spoken : List (Text × WireCommand)
spoken = (codes "b", begin) ∷ (codes "i", invocation) ∷ (codes "e", ending) ∷ []

spoken-Spoken : All (Spoken json) spoken
spoken-Spoken = ((tt, refl), ((tt, refl), ((tt, refl), tt)))

process_stream-scenario_example :
    process_stream json (hookless engine registry 0) (texts spoken) idle
    ≡ some (
      scenario_lines json (codes "t" ∷ []) calls idle,
      close_scenario (told_all json calls (in_scenario (codes "t" ∷ []) idle)).1,
    )
process_stream-scenario_example =
    process_stream-scenario json (values-IsJson parse) engine registry 0 (codes "t" ∷ []) calls idle
      calls-IsCall spoken refl spoken-Spoken

-- An invocation without a scenario, and a line that is not known.
abbrev requests : List Text
requests = codes "i" ∷ codes "e" ∷ codes "i" ∷ []

process_stream-plain_engine_example :
    Same HasWorld (process_stream json (hookless engine registry 0) requests idle) (
      process_lines
        (wire_protocol_handler (json_wire_message_codec json) (plain_engine engine registry 0))
        requests
        []
        idle.world)
process_stream-plain_engine_example =
    process_stream-plain_engine engine registry 0 json requests idle
