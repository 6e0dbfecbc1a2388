-- ===== src/Wire/Handler.antt =====
-- The `run` functions of the commands, `WireProtocolHandler::handle` and
-- `SocketServer::processStream`.
use cucumber_cpp.Base.{ℕ, Option, none, some, List, [], ◌∷◌, ◌++◌, ◌>>=◌, Text, codes}
use cucumber_cpp.Regex.{RegexEngine}
use cucumber_cpp.Step.Manager.{Registry}
use cucumber_cpp.Hook.Registrar.{Hooks}
use cucumber_cpp.Commands.{World, CukeCommands, Outcome, Unit0}
use cucumber_cpp.Engine.{
  InvokeException, invoke_exception, invoke_failure_exception, pending_step_exception, StepEnd,
  completed, thrown, CallEnd, returned, let_out, CukeEngine, engine_begin_scenario,
  engine_end_scenario, engine_step_matches, invoke_step, engine_snippet_text,
}
use cucumber_cpp.Wire.Json.{Json}
use cucumber_cpp.Wire.Decoder.{
  WireCommand, begin_scenario_command, end_scenario_command, step_matches_command, invoke_command,
  snippet_text_command, failing_command, decode,
}
use cucumber_cpp.Wire.Encoder.{
  WireResponse, success_response, failure_response, pending_response, step_matches_response,
  snippet_text_response, encode,
}

-- A response, or `none` for an exception, and the state of the engine.
abbrev pub Ran : Type 0 → Type 0
Ran E = Option WireResponse × E

-- What the program has besides its state: the engine of regular expressions, the hooks, the steps,
-- and the value of an uninitialised id.
pub record Program (U : Type 0) : Type 0 where
  pub engine : RegexEngine
  pub hooks : Hooks (World U)
  pub registry : Registry (World U)
  pub uninitialised : ℕ

-- `WireMessageCodec`: `none` is a `WireMessageCodecException`; and `ProtocolHandler`, whose answer
-- is `none` if a step does not come to an end.
pub record WireMessageCodec : Type 0 where
  pub decode : Text → WireCommand
  pub encode : WireResponse → Option Text

pub record ProtocolHandler (E : Type 0) : Type 0 where
  pub handle : Text → E → Option (Text × E)

-- `JsonWireMessageCodec`.
unfoldable pub json_wire_message_codec : Json → WireMessageCodec
json_wire_message_codec json = record { decode = decode json; encode = encode json }

-- `FailureResponse()`.
abbrev pub failure_without_detail : WireResponse
failure_without_detail = failure_response [] []

-- The handlers of `InvokeCommand::run`.
abbrev pub response_to : InvokeException → WireResponse
response_to (invoke_exception message) = failure_without_detail
response_to (invoke_failure_exception message exception_type) =
    failure_response message exception_type
response_to (pending_step_exception message) = pending_response message

-- `response = codec.encode(*wireResponse)`, and the handler of every exception.
abbrev pub fail_line : Text
fail_line = codes "[\"fail\"]"

abbrev pub or_fail_line : Option Text → Text
or_fail_line none = fail_line
or_fail_line (some response) = response

abbrev pub codec_answer : WireMessageCodec → Option WireResponse → Text
codec_answer codec none = fail_line
codec_answer codec (some response) = or_fail_line (codec.encode response)

abbrev pub encode_answer : Json → Option WireResponse → Text
encode_answer json none = fail_line
encode_answer json (some response) = or_fail_line (encode json response)

-- The commands, the handler and the server, over any engine, codec and handler.
module _ {E : Type 0} where
  abbrev pub answer_call : CallEnd E → Ran E
  answer_call (returned c) = (some success_response, c)
  answer_call (let_out c) = (none, c)

  abbrev pub answer_step : StepEnd E → Ran E
  answer_step (completed c) = (some success_response, c)
  answer_step (thrown e c) = (some (response_to e), c)

  -- The `run` functions.
  unfoldable pub run : CukeEngine E → WireCommand → E → Option (Ran E)
  run engine (begin_scenario_command tags) c = some (answer_call (engine.begin_scenario tags c))
  run engine (end_scenario_command tags) c = some (answer_call (engine.end_scenario tags c))
  run engine (step_matches_command step_name) c =
      some (some (step_matches_response (engine.step_matches step_name c)), c)
  run engine (invoke_command id args table_arg) c = elim (engine.invoke_step id args table_arg c) [
    | none ↦ none
    | some end ↦ some (answer_step end)
  ]
  run engine (snippet_text_command keyword name multiline_arg_class) c =
      some
        (some (snippet_text_response (engine.snippet_text keyword name multiline_arg_class c)), c)
  run engine failing_command c = some (some failure_without_detail, c)

  -- `WireProtocolHandler`.
  unfoldable pub wire_protocol_handler : WireMessageCodec → CukeEngine E → ProtocolHandler E
  unfolding run
  wire_protocol_handler codec engine = record {
    handle = λ request c. elim (run engine (codec.decode request) c) [
      | none ↦ none
      | some (response, c') ↦ some (codec_answer codec response, c')
    ];
  }

  -- The loop of `processStream` over the lines of the stream, with the lines written so far.
  unfoldable pub process_lines :
      ProtocolHandler E → List Text → List Text → E → Option (List Text × E)
  process_lines handler [] written c = some (written, c)
  process_lines handler (request ∷ requests) written c = do
    (response, c') ← handler.handle request c
    process_lines handler requests (written ++ response ∷ []) c'

module _ {U : Type 0} where
  abbrev pub scenario_end : Outcome U Unit0 → CallEnd (CukeCommands U)
  scenario_end (Outcome.done u c) = returned c
  scenario_end (Outcome.escaped t c) = let_out c

  -- `CukeEngineImpl`.
  unfoldable pub cuke_engine_impl : Program U → CukeEngine (CukeCommands U)
  cuke_engine_impl p = record {
    step_matches = λ name c. engine_step_matches p.engine p.registry name;
    begin_scenario = λ tags c. scenario_end (engine_begin_scenario p.hooks tags c);
    invoke_step =
        λ id args table_arg c. invoke_step p.hooks p.registry p.uninitialised id args table_arg c;
    end_scenario = λ tags c. scenario_end (engine_end_scenario p.hooks tags c);
    snippet_text =
        λ keyword name multiline_arg_class c. engine_snippet_text keyword name multiline_arg_class;
  }

  -- The commands on the program's engine. `none` is a chain of hooks whose fuel ran out.
  unfoldable pub run_command :
      Program U → WireCommand → CukeCommands U → Option (Ran (CukeCommands U))
  unfolding run cuke_engine_impl
  run_command p = run (cuke_engine_impl p)

  module _ (json : Json) where
    -- The handler that `acceptWireProtocol` makes.
    unfoldable pub protocol_handler : Program U → ProtocolHandler (CukeCommands U)
    unfolding json_wire_message_codec wire_protocol_handler run_command
    protocol_handler p = wire_protocol_handler (json_wire_message_codec json) (cuke_engine_impl p)

    abbrev pub handle : Program U → Text → CukeCommands U → Option (Text × CukeCommands U)
    handle p = (protocol_handler p).handle

    unfoldable pub process_from :
        Program U → List Text → List Text → CukeCommands U → Option (List Text × CukeCommands U)
    unfolding process_lines protocol_handler
    process_from p = process_lines (protocol_handler p)

    unfoldable pub process_stream :
        Program U → List Text → CukeCommands U → Option (List Text × CukeCommands U)
    unfolding process_from
    process_stream p requests c = process_from p requests [] c
