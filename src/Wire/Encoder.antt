-- ===== src/Wire/Encoder.antt =====
-- The responses, `WireResponseEncoder` and `JsonWireMessageCodec::encode`.
use cucumber_cpp.Base.{
  Option, none, some, List, [], ◌∷◌, ◌++◌, map, if◌then◌else◌, is_empty, Text, codes,
}
use cucumber_cpp.Engine.{StepMatchArg, StepMatch}
use cucumber_cpp.Wire.Json.{Json}

-- The subclasses of `WireResponse`.
pub data WireResponse : Type 0 where
  success_response : WireResponse
  failure_response : Text → Text → WireResponse
  pending_response : Text → WireResponse
  step_matches_response : List StepMatch → WireResponse
  snippet_text_response : Text → WireResponse

-- `WireResponseVisitor`, on the state of a visitor, and the `accept` functions.
pub record WireResponseVisitor (V : Type 0) : Type 0 where
  pub visit_success : V → V
  pub visit_failure : Text → Text → V → V
  pub visit_pending : Text → V → V
  pub visit_step_matches : List StepMatch → V → V
  pub visit_snippet_text : Text → V → V

unfoldable pub accept : {V : Type 0} → WireResponseVisitor V → WireResponse → V → V
accept visitor success_response = visitor.visit_success
accept visitor (failure_response message exception_type) =
    visitor.visit_failure message exception_type
accept visitor (pending_response message) = visitor.visit_pending message
accept visitor (step_matches_response matching_steps) = visitor.visit_step_matches matching_steps
accept visitor (snippet_text_response step_snippet) = visitor.visit_snippet_text step_snippet

module _ (json : Json) where
  -- A key that is assigned if its text is not empty.
  abbrev pub non_empty : Text → Text → List (Text × json.Value)
  non_empty key value = if is_empty value then [] else (key, json.string value) ∷ []

  -- `output`: the kind of the response is pushed back, and the detail unless it is missing or null;
  -- `success` and `fail`.
  unfoldable pub output : Text → Option json.Value → List json.Value → List json.Value
  output response_type none json_output = json_output ++ json.string response_type ∷ []
  output response_type (some detail) json_output =
      if json.is_null detail
      then json_output ++ json.string response_type ∷ []
      else json_output ++ json.string response_type ∷ detail ∷ []

  unfoldable pub output_success : Option json.Value → List json.Value → List json.Value
  unfolding output
  output_success detail = output (codes "success") detail

  unfoldable pub output_fail : Option json.Value → List json.Value → List json.Value
  unfolding output
  output_fail detail = output (codes "fail") detail

  abbrev pub failure_detail : List (Text × json.Value) → Option json.Value
  failure_detail [] = none
  failure_detail (field ∷ fields) = some (json.object (field ∷ fields))

  abbrev pub json_arg : StepMatchArg → json.Value
  json_arg ma =
      json.object
        ((codes "val", json.string ma.value) ∷ (codes "pos", json.number ma.position) ∷ [])

  abbrev pub json_match : StepMatch → json.Value
  json_match m = json.object (
      (codes "id", json.string m.id)
      ∷ (codes "args", json.array (map json_arg m.args))
      ∷ (non_empty (codes "source") m.source ++ non_empty (codes "regexp") m.regexp))

  -- `WireResponseEncoder`: its state is `jsonOutput`.
  unfoldable pub wire_response_encoder : WireResponseVisitor (List json.Value)
  unfolding output_success output_fail output
  wire_response_encoder = record {
    visit_success = output_success none;
    visit_failure = λ message exception_type. output_fail (
        failure_detail
          (non_empty (codes "message") message ++ non_empty (codes "exception") exception_type));
    visit_pending = λ message. output (codes "pending") (some (json.string message));
    visit_step_matches = λ matching_steps.
        output (codes "success") (some (json.array (map json_match matching_steps)));
    visit_snippet_text = λ step_snippet. output_success (some (json.string step_snippet));
  }

  -- The output is cleared first; `none` is a `WireMessageCodecException`.
  unfoldable pub encode : WireResponse → Option Text
  unfolding accept wire_response_encoder
  encode response = json.dump (json.array (accept wire_response_encoder response []))
