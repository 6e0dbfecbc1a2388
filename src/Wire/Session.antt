-- ===== src/Wire/Session.antt =====
-- A whole scenario as the client speaks it: the lines of its commands, and the lines of the answers.
mod Tests
use cucumber_cpp.Base.{
  ℕ, ◌<◌, ◌≡◌, ◌∙◌, refl, sym, ap, Bool, true, false, Option, none, some, List, [], ◌∷◌, ◌++◌,
  append_assoc, append-nil, Option-cases, inl, inr, ◌>>=◌, Text, All,
}
use cucumber_cpp.Regex.{RegexEngine}
use cucumber_cpp.Step.Body.{InvokeArgs}
use cucumber_cpp.Step.Manager.{StepInfo, Registry, id_limit, get_step}
use cucumber_cpp.Hook.Registrar.{
  Hooks, Scenario, exec_before_hooks, exec_before_all_hooks, exec_after_hooks,
}
use cucumber_cpp.Commands.{World, CukeCommands, start, begin_scenario, end_scenario, close_scenario}
use cucumber_cpp.Engine.{id_to_string, command_args, engine_begin_scenario, engine_end_scenario}
use cucumber_cpp.Wire.Json.{Json}
use cucumber_cpp.Wire.Decoder.{
  WireCommand, begin_scenario_command, end_scenario_command, invoke_command, decode,
}
use cucumber_cpp.Wire.Encoder.{WireResponse, success_response}
use cucumber_cpp.Wire.Handler.{
  Program, run_command, encode_answer, protocol_handler, handle, process_from, process_stream,
}
use cucumber_cpp.Wire.Requests.{IsJson, IsRequested, request, decode-request}
use cucumber_cpp.Wire.Invocation.{told, run_command-told}

-- The commands one after the other, with the lines of their answers.
abbrev pub perform :
    {U : Type 0}
    → Json
    → Program U
    → List WireCommand
    → CukeCommands U
    → Option (List Text × CukeCommands U)
perform json p [] c = some ([], c)
perform json p (command ∷ commands) c = do
  (response, c') ← run_command p command c
  (lines, c'') ← perform json p commands c'
  some (encode_answer json response ∷ lines, c'')

-- A program without hooks.
abbrev pub no_hooks : (S : Type 0) → Hooks S
no_hooks S = record {
  before_all_hooks = [];
  before_hooks = [];
  around_step_hooks = [];
  after_step_hooks = [];
  after_hooks = [];
  after_all_hooks = [];
}

abbrev pub hookless : {U : Type 0} → RegexEngine → Registry (World U) → ℕ → Program U
hookless {U} engine registry uninitialised = record {
  engine = engine;
  hooks = no_hooks (World U);
  registry = registry;
  uninitialised = uninitialised;
}

-- The call of a step: what the client sends, and what is found.
pub record StepCall (U : Type 0) : Type 0 where
  pub id : ℕ
  pub args : List Text
  pub table_arg : List (List Text)
  pub step : StepInfo (World U)
  pub taken : InvokeArgs

abbrev pub IsCall : {U : Type 0} → Registry (World U) → StepCall U → Type 0
IsCall registry s =
    (s.id < id_limit)
    × (get_step s.id registry.steps ≡ some s.step)
    × (command_args s.args s.table_arg ≡ some s.taken)

abbrev pub invocations : {U : Type 0} → List (StepCall U) → List WireCommand
invocations [] = []
invocations (s ∷ calls) = invoke_command (id_to_string s.id) s.args s.table_arg ∷ invocations calls

-- Lines that the client writes for commands.
abbrev pub Spoken : Json → Text × WireCommand → Type 0
Spoken json (text, command) =
    IsRequested json command × (json.parse text ≡ some (request json command))

abbrev pub texts : List (Text × WireCommand) → List Text
texts [] = []
texts ((text, command) ∷ spoken) = text ∷ texts spoken

abbrev pub commands_of : List (Text × WireCommand) → List WireCommand
commands_of [] = []
commands_of ((text, command) ∷ spoken) = command ∷ commands_of spoken

-- The state in which a scenario with some tags starts.
abbrev pub in_scenario : {U : Type 0} → List Text → CukeCommands U → CukeCommands U
in_scenario tags c = record c {
  has_started = true;
  current_scenario = some (record { tags = tags });
}

-- The commands of a scenario: its begin, the calls of its steps, and its end.
abbrev pub scenario_commands : {U : Type 0} → List Text → List (StepCall U) → List WireCommand
scenario_commands tags calls =
    begin_scenario_command tags ∷ (invocations calls ++ end_scenario_command tags ∷ [])

module _ {U : Type 0} (json : Json) where
  -- The answers to some calls, each on the state behind the call before.
  abbrev pub told_all : List (StepCall U) → CukeCommands U → List Text × CukeCommands U
  told_all [] c = ([], c)
  told_all (s ∷ calls) c =
      let (response, c') = told s.step s.taken c in
      let (lines, c'') = told_all calls c' in (encode_answer json response ∷ lines, c'')

  abbrev pub scenario_lines : List Text → List (StepCall U) → CukeCommands U → List Text
  scenario_lines tags calls c =
      encode_answer json (some success_response)
      ∷ ((told_all calls (in_scenario tags c)).0 ++ encode_answer json (some success_response) ∷ [])

  module _ (engine : RegexEngine) (registry : Registry (World U)) (uninitialised : ℕ) where
    perform-invocations :
        (calls : List (StepCall U)) (commands : List WireCommand) (c : CukeCommands U)
        → All (IsCall registry) calls
        → (lines : List Text) (c' : CukeCommands U)
        → perform json (hookless engine registry uninitialised) commands (told_all calls c).1
          ≡ some (lines, c')
        → perform json (hookless engine registry uninitialised) (invocations calls ++ commands) c
          ≡ some ((told_all calls c).0 ++ lines, c')
    perform-invocations [] commands c h lines c' rest = rest
    perform-invocations (s ∷ calls) commands c ((small, found, taken), hs) lines c' rest =
        let behind = told s.step s.taken c in
        let ih = perform-invocations calls commands behind.1 hs lines c' rest in
        rw
          (run_command-told (hookless engine registry uninitialised) s.id s.args s.table_arg s.step
            s.taken c refl refl small found taken)
          (rw ih refl)

    run_command-begin_scenario :
        (tags : List Text) (c : CukeCommands U)
        → run_command (hookless engine registry uninitialised) (begin_scenario_command tags) c
          ≡ some (some success_response, in_scenario tags c)
    unfolding run_command engine_begin_scenario begin_scenario start exec_before_hooks
        exec_before_all_hooks
    run_command-begin_scenario tags c =
        elim c.has_started
          as (λ b.
            let c1 : CukeCommands U = record c { has_started = b } in
            run_command (hookless engine registry uninitialised) (begin_scenario_command tags) c1
            ≡ some (some success_response, in_scenario tags c1)) [ true ↦ refl | false ↦ refl ]

    run_command-end_scenario :
        (tags : List Text) (c : CukeCommands U)
        → run_command (hookless engine registry uninitialised) (end_scenario_command tags) c
          ≡ some (some success_response, close_scenario c)
    unfolding run_command engine_end_scenario end_scenario exec_after_hooks
    run_command-end_scenario tags c = refl

    perform-scenario :
        (tags : List Text) (calls : List (StepCall U)) (c : CukeCommands U)
        → All (IsCall registry) calls
        → perform json (hookless engine registry uninitialised) (scenario_commands tags calls) c
          ≡ some
              (scenario_lines tags calls c, close_scenario (told_all calls (in_scenario tags c)).1)
    perform-scenario tags calls c h =
        let behind = (told_all calls (in_scenario tags c)).1 in
        let ending : perform json (hookless engine registry uninitialised)
              (end_scenario_command tags ∷ []) behind
            ≡ some (encode_answer json (some success_response) ∷ [], close_scenario behind) =
          rw (run_command-end_scenario tags behind) refl in
        let steps =
          perform-invocations calls (end_scenario_command tags ∷ []) (in_scenario tags c) h
            (encode_answer json (some success_response) ∷ []) (close_scenario behind) ending in
        rw (run_command-begin_scenario tags c) (rw steps refl)

  -- Lines behind others.
  abbrev behind_lines :
      List Text → Option (List Text × CukeCommands U) → Option (List Text × CukeCommands U)
  behind_lines written o = do (lines, c) ← o; some (written ++ lines, c)

  module _ (laws : IsJson json) (p : Program U) where
    handle-Spoken :
        (text : Text) (command : WireCommand) (c : CukeCommands U)
        → Spoken json (text, command)
        → handle json p text c
          ≡ (do (response, c') ← run_command p command c; some (encode_answer json response, c'))
    unfolding protocol_handler run_command
    handle-Spoken text command c (requested, parsed) =
        rw (decode-request json laws text command requested parsed, handle)
          (elim (Option-cases (run_command p command c)) [
            | inl e ↦ rw e refl
            | inr (r, e) ↦ rw e refl
          ])

    pub process_from-perform :
        (spoken : List (Text × WireCommand)) (written : List Text) (c : CukeCommands U)
        → All (Spoken json) spoken
        → process_from json p (texts spoken) written c
          ≡ (do (lines, c') ← perform json p (commands_of spoken) c; some (written ++ lines, c'))
    unfolding process_from
    process_from-perform [] written c h = rw (append-nil written) refl
    process_from-perform ((text, command) ∷ spoken) written c (s, h) =
        elim (Option-cases (run_command p command c)) [
          | inl e ↦ rw (handle-Spoken text command c s, process_from) (rw e refl)
          | inr ((response, c'), e) ↦
              let ih =
                process_from-perform spoken (written ++ encode_answer json response ∷ []) c' h in
              rw (handle-Spoken text command c s, process_from) (rw e (ih ∙ moved response c'))
        ]
      where
        moved :
            (response : Option WireResponse) (c' : CukeCommands U)
            → behind_lines
                (written ++ encode_answer json response ∷ [])
                (perform json p (commands_of spoken) c')
              ≡ behind_lines written (
                  behind_lines
                    (encode_answer json response ∷ [])
                    (perform json p (commands_of spoken) c'))
        moved response c' = elim (Option-cases (perform json p (commands_of spoken) c')) [
          | inl e ↦ rw e refl
          | inr ((lines, d), e) ↦
              rw e (rw (append_assoc written (encode_answer json response ∷ []) lines) refl)
        ]

  -- Without hooks, the server answers the lines of a scenario, its begin, calls of registered steps
  -- with arguments that are taken, and its end, by a line of success, a line for each step that tells
  -- the result of its run on the state behind the step before, and a line of success; behind it
  -- there is no scenario, and the contexts are purged. JSON values are read back as they were made.
  pub process_stream-scenario :
      (laws : IsJson json) (engine : RegexEngine) (registry : Registry (World U))
      (uninitialised : ℕ)
      → (tags : List Text) (calls : List (StepCall U)) (c : CukeCommands U)
      → All (IsCall registry) calls
      → (spoken : List (Text × WireCommand)) → commands_of spoken ≡ scenario_commands tags calls
      → All (Spoken json) spoken
      → process_stream json (hookless engine registry uninitialised) (texts spoken) c
        ≡ some (scenario_lines tags calls c, close_scenario (told_all calls (in_scenario tags c)).1)
  unfolding process_stream
  process_stream-scenario laws engine registry uninitialised tags calls c h spoken same s =
      let p : Program U = hookless engine registry uninitialised in
      process_from-perform laws p spoken [] c s
      ∙ ap (λ commands. do (lines, c') ← perform json p commands c; some ([] ++ lines, c')) same
      ∙ rw (perform-scenario engine registry uninitialised tags calls c h) refl
