-- ===== src/Wire/Simulation.antt =====
-- What a client can see of an engine: engines that simulate each other are answered for by the same
-- lines, in any session, over any codec.
use cucumber_cpp.Base.{◌≡◌, refl, ap, subst, Option, none, some, List, [], ◌∷◌, ◌++◌, ◌>>=◌, Text}
use cucumber_cpp.Engine.{StepEnd, completed, thrown, CallEnd, returned, let_out, CukeEngine}
use cucumber_cpp.Wire.Decoder.{
  WireCommand, begin_scenario_command, end_scenario_command, step_matches_command, invoke_command,
  snippet_text_command, failing_command,
}
use cucumber_cpp.Wire.Encoder.{step_matches_response, snippet_text_response}
use cucumber_cpp.Wire.Handler.{
  WireMessageCodec, response_to, codec_answer, answer_call, answer_step, run, wire_protocol_handler,
  process_lines,
}

module _ {E F : Type 0} (R : E → F → Type 0) where
  -- Calls that end in the same way, in related states.
  abbrev pub SameCall : CallEnd E → CallEnd F → Type 0
  SameCall (returned c) (returned d) = R c d
  SameCall (let_out c) (let_out d) = R c d
  SameCall (returned c) (let_out d) = ⊥
  SameCall (let_out c) (returned d) = ⊥

  abbrev pub SameEnd : StepEnd E → StepEnd F → Type 0
  SameEnd (completed c) (completed d) = R c d
  SameEnd (thrown e c) (thrown e' d) = (e ≡ e') × R c d
  SameEnd (completed c) (thrown e d) = ⊥
  SameEnd (thrown e c) (completed d) = ⊥

  abbrev pub SameStep : Option (StepEnd E) → Option (StepEnd F) → Type 0
  SameStep none none = Unit
  SameStep (some end) (some end') = SameEnd end end'
  SameStep none (some end) = ⊥
  SameStep (some end) none = ⊥

  -- Each call of one engine ends as that of the other does, if they start in related states.
  pub record Simulates (engine : CukeEngine E) (other : CukeEngine F) : Type 0 where
    pub matches :
        (name : Text) (c : E) (d : F)
        → R c d
        → engine.step_matches name c ≡ other.step_matches name d
    pub begins :
        (tags : List Text) (c : E) (d : F)
        → R c d
        → SameCall (engine.begin_scenario tags c) (other.begin_scenario tags d)
    pub invokes :
        (id : Text) (args : List Text) (table_arg : List (List Text)) (c : E) (d : F)
        → R c d
        → SameStep (engine.invoke_step id args table_arg c) (other.invoke_step id args table_arg d)
    pub ends :
        (tags : List Text) (c : E) (d : F)
        → R c d
        → SameCall (engine.end_scenario tags c) (other.end_scenario tags d)
    pub snippets :
        (keyword name multiline_arg_class : Text) (c : E) (d : F)
        → R c d
        → engine.snippet_text keyword name multiline_arg_class c
          ≡ other.snippet_text keyword name multiline_arg_class d

  -- The same value, beside related states.
  abbrev pub Same : {A : Type 0} → Option (A × E) → Option (A × F) → Type 0
  Same none none = Unit
  Same (some (a, c)) (some (b, d)) = (a ≡ b) × R c d
  Same none (some x) = ⊥
  Same (some x) none = ⊥

  Same-call :
      (end : CallEnd E) (end' : CallEnd F)
      → SameCall end end'
      → Same (some (answer_call end)) (some (answer_call end'))
  Same-call (returned c) (returned d) h = (refl, h)
  Same-call (let_out c) (let_out d) h = (refl, h)
  Same-call (returned c) (let_out d) h = elim h [ ]
  Same-call (let_out c) (returned d) h = elim h [ ]

  Same-step :
      (end : Option (StepEnd E)) (end' : Option (StepEnd F))
      → SameStep end end'
      → Same
          (elim end [ none ↦ none | some e ↦ some (answer_step e) ])
          (elim end' [ none ↦ none | some e ↦ some (answer_step e) ])
  Same-step none none h = tt
  Same-step (some (completed c)) (some (completed d)) h = (refl, h)
  Same-step (some (thrown e c)) (some (thrown e' d)) (same, h) =
      (ap (λ x. some (response_to x)) same, h)
  Same-step (some (completed c)) (some (thrown e d)) h = elim h [ ]
  Same-step (some (thrown e c)) (some (completed d)) h = elim h [ ]
  Same-step none (some end) h = elim h [ ]
  Same-step (some end) none h = elim h [ ]

  Same-map :
      {A B : Type 0} (f : A → B) (o : Option (A × E)) (o' : Option (A × F))
      → Same o o'
      → Same
          (elim o [ none ↦ none | some (a, c) ↦ some (f a, c) ])
          (elim o' [ none ↦ none | some (a, d) ↦ some (f a, d) ])
  Same-map f none none h = tt
  Same-map f (some (a, c)) (some (b, d)) (same, h) = (ap f same, h)
  Same-map f none (some x) h = elim h [ ]
  Same-map f (some x) none h = elim h [ ]

  Same-bind :
      {A B : Type 0} (o : Option (A × E)) (o' : Option (A × F)) (k : A × E → Option (B × E))
      (k' : A × F → Option (B × F))
      → Same o o'
      → ((a : A) (c : E) (d : F) → R c d → Same (k (a, c)) (k' (a, d)))
      → Same (o >>= k) (o' >>= k')
  Same-bind none none k k' h next = tt
  Same-bind (some (a, c)) (some (b, d)) k k' (same, h) next =
      subst (λ x. Same (k (a, c)) (k' (x, d))) same (next a c d h)
  Same-bind none (some x) k k' h next = elim h [ ]
  Same-bind (some x) none k k' h next = elim h [ ]

  module _ (engine : CukeEngine E) (other : CukeEngine F) (simulates : Simulates engine other) where
    Same-run :
        (command : WireCommand) (c : E) (d : F)
        → R c d
        → Same (run engine command c) (run other command d)
    unfolding run
    Same-run (begin_scenario_command tags) c d h = Same-call _ _ (simulates.begins tags c d h)
    Same-run (end_scenario_command tags) c d h = Same-call _ _ (simulates.ends tags c d h)
    Same-run (step_matches_command name) c d h =
        (ap (λ matching. some (step_matches_response matching)) (simulates.matches name c d h), h)
    Same-run (invoke_command id args table_arg) c d h =
        Same-step _ _ (simulates.invokes id args table_arg c d h)
    Same-run (snippet_text_command keyword name multiline_arg_class) c d h = (
      ap (λ text. some (snippet_text_response text))
          (simulates.snippets keyword name multiline_arg_class c d h),
      h,
    )
    Same-run failing_command c d h = (refl, h)

    module _ (codec : WireMessageCodec) where
      Same-handle :
          (request : Text) (c : E) (d : F)
          → R c d
          → Same
              ((wire_protocol_handler codec engine).handle request c)
              ((wire_protocol_handler codec other).handle request d)
      unfolding wire_protocol_handler
      Same-handle request c d h =
          Same-map (codec_answer codec) _ _ (Same-run (codec.decode request) c d h)

      -- Engines whose calls end in the same way, from related states in related states, are
      -- answered for by the same lines, whatever the client writes.
      pub process_lines-Same :
          (requests written : List Text) (c : E) (d : F)
          → R c d
          → Same
              (process_lines (wire_protocol_handler codec engine) requests written c)
              (process_lines (wire_protocol_handler codec other) requests written d)
      unfolding process_lines
      process_lines-Same [] written c d h = (refl, h)
      process_lines-Same (request ∷ requests) written c d h =
          Same-bind _ _ _ _ (Same-handle request c d h)
            λ response c' d' h'. process_lines-Same requests (written ++ response ∷ []) c' d' h'
