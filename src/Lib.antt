-- ===== src/Lib.antt =====
-- A model of the Cucumber-Cpp library: the server part of the Cucumber wire protocol. The client
-- sends lines of JSON; the program finds the registered steps that match a text, runs them between
-- hooks, and answers each line.
--
-- The parts, from the outside in, with the files that model them:
--   Main      src/main.cpp: the server that the command line asks for, and the exit code.
--   Wire      src/connectors/wire/WireProtocol.cpp, WireProtocolCommands.cpp and WireServer.cpp.
--             Wire/Decoder has the command decoders and `decode`, Wire/Encoder the responses and
--             `encode`, Wire/Handler the `run` functions, `handle` and `process_stream` over the
--             interfaces `CukeEngine`, `WireMessageCodec` and `ProtocolHandler`, which the program's
--             engine and the JSON codec fill, and Wire/Server the TCP and the Unix server.
--             Wire/Requests and Wire/Responses are the client's side, Wire/Simulation compares engines,
--             and Wire/Plain is an engine without scenarios. The JSON library is the record of Wire/Json,
--             and asio with the file system the record `Platform`, whose calls may each fail.
--   Macros    include/cucumber-cpp/internal/RegistrationMacros.hpp, step/StepMacros.hpp and
--             hook/HookMacros.hpp: the registrations that the macros expand to.
--   Engine    src/CukeEngine.cpp and src/CukeEngineImpl.cpp: ids as texts, the arguments of a step,
--             and the exceptions that tell its result.
--   Commands  src/CukeCommands.cpp: the scenario, the invocation of a step between its hooks, and
--             the snippets (Commands/Snippet).
--   Hook      src/HookRegistrar.cpp, src/Scenario.cpp and their headers. Hook/Registrar has the lists
--             of hooks, Hook/Chain the around-step hooks.
--   Step      src/StepManager.cpp and its header, with src/drivers. Step/Manager has ids,
--             registration and matching, Step/Body the arguments, the results and the body of a
--             step, Step/Drivers the four drivers, and Step/Invoke the invocation.
--   Context   src/ContextManager.cpp and its header: the objects that live as long as a scenario.
--   Tag       src/Tag.cpp. Table: src/Table.cpp. Regex: src/Regex.cpp.
--   Expression  src/CucumberExpression.cpp and its header. Error has the exceptions, Types the
--             parameter types, Validate the first loop of `cukex::transform`, Parser and
--             Alternatives the parser class, Transform the function itself.
--   Examples  examples: the calculators of Calc and CalcQt, the widget of CalcQt, and the actors
--             of FeatureShowcase. Calc/Steps, CalcQt/Steps, ActiveActors/Steps and Showcase have the
--             step definitions and hooks, over the scopes of Scoped.
--   Base      shared names, texts, lists, decimal numbers and maps with string keys.
--
-- A function of the program `fooBar` is `foo_bar` here. A method takes its object as an argument and
-- gives the new one back; an exception is a value of the result. Texts are lists of bytes. The code
-- of users, which is the bodies of steps and hooks, is a tree of what it does to a state `U`, so that
-- it can read and change the state, throw, mark a step as pending and call the next hook. The order
-- in which a program evaluates the arguments of a step is open in C++: it is a part of `ArgTypes`.
-- A slot of CalcQt's calculator gives the texts of the signals that it emits.
--
-- Bounds and fuel: `parse_from` has the length of the expression as fuel, and each round of the
-- parser goes forward; the loops of Alternatives have the length of the text in which they go
-- forward; `calculate_from` has the length of the expression, of which each match takes a character;
-- `exec_next` has the number of around-step hooks, each of which a call takes off the list;
-- `to_digits` has the number itself. A step id is a number below 2 ^ 32 that wraps around.
-- In Expression, `undefined` is a read outside a string; `read_at` is `operator[]`, which gives a NUL
-- behind the last character.
--
-- Not modelled: std::regex, which is the record `RegexEngine`; the parser of JSON; the parser of
-- the command line; the preprocessor, whose `#__VA_ARGS__` is a text; what GoogleTest, Boost.Test
-- and Qt do around the body of a step, which is an argument of the driver; the layout of the
-- widget; the tests. The file of custom parameter types is modelled by what the loop over its items
-- finds. Characters are ASCII where a function asks for their class.
pub mod Base
pub mod Expression
pub mod Table
pub mod Tag
pub mod Regex
pub mod Step
pub mod Hook
pub mod Context
pub mod Commands
pub mod Engine
pub mod Examples
pub mod Main
pub mod Macros
pub mod Wire
