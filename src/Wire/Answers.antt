-- ===== src/Wire/Answers.antt =====
-- Every line of a stream is answered by one line.
use cucumber_cpp.Base.{
  ℕ, ◌+◌, ◌≡◌, refl, ap, ◌∙◌, Option, some, List, [], ◌∷◌, ◌++◌, ◌>>=◌, length, length-append,
  arith, Text,
}
use cucumber_cpp.Commands.{CukeCommands}
use cucumber_cpp.Engine.{CukeEngine}
use cucumber_cpp.Engine.Verdict.{Answers, Answers-then, invoke_step-Answers}
use cucumber_cpp.Wire.Json.{Json}
use cucumber_cpp.Wire.Decoder.{
  WireCommand, begin_scenario_command, end_scenario_command, step_matches_command, invoke_command,
  snippet_text_command, failing_command,
}
use cucumber_cpp.Wire.Handler.{
  Program, run, answer_step, codec_answer, WireMessageCodec, ProtocolHandler,
  json_wire_message_codec, wire_protocol_handler, process_lines, cuke_engine_impl, process_stream,
}

-- The lines written, and what is behind them, are `n` lines.
abbrev pub AnswersEach : {E : Type 0} → ℕ → Option (List Text × E) → Type 0
AnswersEach {E} n o =
    (written : List Text) × (c : E) × (o ≡ some (written, c)) × (length written ≡ n)

-- What the server asks of a handler: an answer to every request.
pub record IsHandler {E : Type 0} (handler : ProtocolHandler E) : Type 0 where
  pub answers : (request : Text) (c : E) → Answers (handler.handle request c)

-- What the handler asks of an engine: every step comes to an end.
pub record IsEngine {E : Type 0} (engine : CukeEngine E) : Type 0 where
  pub ends :
      (id : Text) (args : List Text) (table_arg : List (List Text)) (c : E)
      → Answers (engine.invoke_step id args table_arg c)

module _ {E : Type 0} where
  module _ (handler : ProtocolHandler E) (law : IsHandler handler) where
    process_lines-AnswersEach :
        (requests written : List Text) (c : E)
        → AnswersEach (length written + length requests) (process_lines handler requests written c)
    unfolding process_lines
    process_lines-AnswersEach [] written c = (written, c, refl, omega arith)
    process_lines-AnswersEach (request ∷ requests) written c =
        let ((response, c'), h) = law.answers request c in
        let (all, d, e, n) = process_lines-AnswersEach requests (written ++ response ∷ []) c' in
        (
          all,
          d,
          ap (◌>>= (λ (r, c1). process_lines handler requests (written ++ r ∷ []) c1)) h ∙ e,
          omega (arith, n, length-append written (response ∷ [])),
        )

  module _ (engine : CukeEngine E) (law : IsEngine engine) where
    run-Answers : (command : WireCommand) (c : E) → Answers (run engine command c)
    unfolding run
    run-Answers (begin_scenario_command tags) c = (_, refl)
    run-Answers (end_scenario_command tags) c = (_, refl)
    run-Answers (step_matches_command step_name) c = (_, refl)
    run-Answers (invoke_command id args table_arg) c =
        Answers-then _ answer_step (law.ends id args table_arg c)
    run-Answers (snippet_text_command keyword name multiline_arg_class) c = (_, refl)
    run-Answers failing_command c = (_, refl)

    wire_protocol_handler-IsHandler :
        (codec : WireMessageCodec) → IsHandler (wire_protocol_handler codec engine)
    unfolding wire_protocol_handler
    wire_protocol_handler-IsHandler codec = record {
      answers = λ request c.
          Answers-then _ (λ (response, c'). (codec_answer codec response, c'))
            (run-Answers (codec.decode request) c);
    }

    -- Over any codec and any engine whose steps come to an end, one line is written for each
    -- request, whatever the codec cannot decode or encode and whatever the engine throws.
    pub process_lines-handler_AnswersEach :
        (codec : WireMessageCodec) (requests : List Text) (c : E)
        → AnswersEach
            (length requests)
            (process_lines (wire_protocol_handler codec engine) requests [] c)
    process_lines-handler_AnswersEach codec requests c =
        let (written, d, e, n) =
          process_lines-AnswersEach (wire_protocol_handler codec engine)
            (wire_protocol_handler-IsHandler codec) requests [] c in
        (written, d, e, omega (arith, n))

module _ {U : Type 0} (p : Program U) where
  cuke_engine_impl-IsEngine : IsEngine (cuke_engine_impl p)
  unfolding cuke_engine_impl
  cuke_engine_impl-IsEngine = record {
    ends = λ id args table_arg c.
        invoke_step-Answers p.hooks p.registry p.uninitialised id args table_arg c;
  }

  -- The server processes every stream to its end, and writes one response line for each request
  -- line, whatever the hooks, the steps and the requests are.
  pub process_stream-AnswersEach :
      (json : Json) (requests : List Text) (c : CukeCommands U)
      → AnswersEach (length requests) (process_stream json p requests c)
  unfolding process_stream
  process_stream-AnswersEach json requests c =
      process_lines-handler_AnswersEach (cuke_engine_impl p) cuke_engine_impl-IsEngine
        (json_wire_message_codec json) requests c
