-- ===== src/Macros/Registration.antt =====
-- What a macro for a step does to the registry when its matcher is a regular expression.
use cucumber_cpp.Base.{ℕ, ◌+◌, ◌%◌, ◌≡◌, refl, ap, none, some, List, [], Text}
use cucumber_cpp.Expression.Error.{ok}
use cucumber_cpp.Expression.Types.{TypeMap}
use cucumber_cpp.Expression.Transform.{transform}
use cucumber_cpp.Regex.{RegexEngine}
use cucumber_cpp.Step.Body.{StepBody}
use cucumber_cpp.Step.Drivers.{Driver}
use cucumber_cpp.Step.Manager.{
  StepInfo, Registry, id_limit, get_regex_string, to_source_string, make_step, add_step,
  register_step,
}
use cucumber_cpp.Macros.{ArgTypes, cuke_object, cuke_step, given}

-- No step is registered.
abbrev pub empty_registry : {S : Type 0} → Registry S
empty_registry = record { current_id = 0; steps = [] }

module _ (engine : RegexEngine) (types : TypeMap) where
  get_regex_string_plain :
      (matcher : Text)
      → engine.regex_error matcher ≡ none
      → get_regex_string engine types matcher ≡ ok matcher
  unfolding get_regex_string
  get_regex_string_plain matcher good =
      ap
        (λ o. elim o [ none ↦ ok matcher | some what ↦ transform engine.regex_error types matcher ])
        good

  module _ {S : Type 0} (driver : Driver S) (file : Text) where
    -- The step of a macro, under the next id.
    abbrev pub step_made : Text → ℕ → ArgTypes → (List Text → StepBody S) → Registry S → StepInfo S
    step_made matcher line arg_types body m = record {
      id = (m.current_id + 1) % id_limit;
      regex = matcher;
      source = to_source_string file line;
      step_def = matcher;
      driver = driver;
      body = cuke_object arg_types body;
    }

    pub cuke_step_plain :
        {matcher : Text} (line : ℕ) (arg_types : ArgTypes) (body : List Text → StepBody S)
        (m : Registry S)
        → engine.regex_error matcher ≡ none
        → cuke_step engine types driver file line matcher arg_types body m
          ≡ ok (
              add_step
                (step_made matcher line arg_types body m)
                (record m { current_id = (m.current_id + 1) % id_limit }))
    unfolding cuke_step register_step make_step
    cuke_step_plain {matcher} line arg_types body m good =
        rw (get_regex_string_plain matcher good) refl

    pub given_plain :
        {matcher : Text} (line : ℕ) (arg_types : ArgTypes) (body : List Text → StepBody S)
        (m : Registry S)
        → engine.regex_error matcher ≡ none
        → given engine types driver file line matcher arg_types body m
          ≡ ok (
              add_step
                (step_made matcher line arg_types body m)
                (record m { current_id = (m.current_id + 1) % id_limit }))
    unfolding given
    given_plain line arg_types body m good = cuke_step_plain line arg_types body m good
