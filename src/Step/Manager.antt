-- ===== src/Step/Manager.antt =====
-- `StepInfo` and `StepManager`: the registered steps, by ascending id.
use cucumber_cpp.Base.{
  ℕ, ◌+◌, ◌%◌, ◌^◌, ◌||◌, Option, none, some, List, [], ◌∷◌, ◌++◌, ltb, ◌==◌, if◌then◌else◌, Text,
  to_string,
}
use cucumber_cpp.Expression.Error.{Result, ok, ◌>>=◌}
use cucumber_cpp.Expression.Types.{TypeMap}
use cucumber_cpp.Expression.Transform.{transform}
use cucumber_cpp.Regex.{RegexEngine, RegexSubmatch, find_match}
use cucumber_cpp.Step.Body.{StepBody, InvokeArgs, InvokeResult}
use cucumber_cpp.Step.Drivers.{Driver}
use cucumber_cpp.Step.Invoke.{invoke}

pub record StepInfo (S : Type 0) : Type 0 where
  pub id : ℕ
  pub regex : Text
  pub source : Text
  pub step_def : Text
  pub driver : Driver S
  pub body : StepBody S

pub record SingleStepMatch (S : Type 0) : Type 0 where
  pub step_info : StepInfo S
  pub submatches : List RegexSubmatch

-- `currentId` of the constructor and `steps()`, both static. A map from ids to steps keeps each
-- step under its own id, so the list of the steps is enough.
pub record Registry (S : Type 0) : Type 0 where
  pub current_id : ℕ
  pub steps : List (StepInfo S)

-- `step_id_type` is `unsigned int`.
abbrev pub id_limit : ℕ
id_limit = 2 ^ 32

-- `getRegexString`: a matcher that is no regular expression is taken as a Cucumber expression.
unfoldable pub get_regex_string : RegexEngine → TypeMap → Text → Result Text
get_regex_string engine types step_matcher = elim (engine.regex_error step_matcher) [
  | none ↦ ok step_matcher
  | some what ↦ transform engine.regex_error types step_matcher
]

-- The file name behind the last separator; `none` if there is no separator.
unfoldable pub base_name : Text → Option Text
base_name [] = none
base_name (c ∷ s) = elim (base_name s) [
  | some file ↦ some file
  | none ↦ if c == b'/' || c == b'\\' then some s else none
]

unfoldable pub to_source_string : Text → ℕ → Text
unfolding base_name to_string
to_source_string file_path line =
    let file : Text = elim (base_name file_path) [ none ↦ file_path | some name ↦ name ] in
    file ++ b':' ∷ to_string line

module _ {S : Type 0} where
  -- `steps().insert(make_pair(stepInfo->id, stepInfo))`.
  unfoldable pub insert_step : StepInfo S → List (StepInfo S) → List (StepInfo S)
  insert_step s [] = s ∷ []
  insert_step s (t ∷ steps) =
      let rest = insert_step s steps in
      if ltb s.id t.id then s ∷ t ∷ steps else if s.id == t.id then t ∷ steps else t ∷ rest

  unfoldable pub add_step : StepInfo S → Registry S → Registry S × ℕ
  unfolding insert_step
  add_step s m = (record m { steps = insert_step s m.steps }, s.id)

  -- The constructor of `StepInfo`: the id is taken only once the regex is known.
  unfoldable pub make_step :
      RegexEngine
      → TypeMap
      → Text
      → Text
      → Driver S
      → StepBody S
      → Registry S
      → Result (StepInfo S × Registry S)
  unfolding get_regex_string
  make_step engine types step_matcher source driver body m = do
    regex ← get_regex_string engine types step_matcher
    let id = (m.current_id + 1) % id_limit
    ok (
      record {
        id = id;
        regex = regex;
        source = source;
        step_def = step_matcher;
        driver = driver;
        body = body;
      },
      record m { current_id = id },
    )

  unfoldable pub register_step :
      RegexEngine
      → TypeMap
      → Text
      → Text
      → ℕ
      → Driver S
      → StepBody S
      → Registry S
      → Result (Registry S × ℕ)
  unfolding make_step add_step
  register_step engine types step_matcher file line driver body m = do
    (s, m') ← make_step engine types step_matcher (to_source_string file line) driver body m
    ok (add_step s m')

  unfoldable pub get_step : ℕ → List (StepInfo S) → Option (StepInfo S)
  get_step id [] = none
  get_step id (s ∷ steps) = if s.id == id then some s else get_step id steps

  -- `StepInfo::matches`; `none` is a match without a step.
  unfoldable pub step_match : RegexEngine → Text → StepInfo S → Option (SingleStepMatch S)
  step_match engine description s =
      let m = find_match engine s.regex description in
      if m.regex_matched then some (record { step_info = s; submatches = m.submatches }) else none

  abbrev pub add_match :
      Option (SingleStepMatch S) → List (SingleStepMatch S) → List (SingleStepMatch S)
  add_match none matches = matches
  add_match (some m) matches = matches ++ m ∷ []

  -- The loop of `stepMatches`, with the matches so far.
  unfoldable pub matches_from :
      RegexEngine → Text → List (StepInfo S) → List (SingleStepMatch S) → List (SingleStepMatch S)
  matches_from engine description [] matches = matches
  matches_from engine description (s ∷ steps) matches =
      matches_from engine description steps (add_match (step_match engine description s) matches)

  unfoldable pub step_matches : RegexEngine → Text → List (StepInfo S) → List (SingleStepMatch S)
  unfolding matches_from step_match
  step_matches engine description steps = matches_from engine description steps []

  -- `StepInvoker::invokeStep`: a new step object is invoked.
  abbrev pub invoke_step : StepInfo S → InvokeArgs → S → InvokeResult × S
  invoke_step s = invoke s.driver s.body
