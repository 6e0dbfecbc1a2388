-- ===== src/Engine.antt =====
-- src/CukeEngine.cpp and src/CukeEngineImpl.cpp with their headers: the entry point of the wire
-- server, which tells what a step did by exceptions.
pub mod Ids
pub mod Verdict
pub mod Arguments
mod Tests
use cucumber_cpp.Base.{
  ℤ, ℕ, ◌+◌, ◌*◌, ◌-◌, ◌%◌, Bool, true, false, ◌&&◌, not, Option, none, some, List, [], ◌∷◌, ◌++◌,
  map, ltb, leb, ◌==◌, if◌then◌else◌, is_empty, Text, codes, to_string, ◌>>=◌,
}
use cucumber_cpp.Table.{Table, TableResult, add_column, add_row}
use cucumber_cpp.Tag.{is_space}
use cucumber_cpp.Regex.{RegexEngine, RegexSubmatch}
use cucumber_cpp.Step.Body.{
  InvokeArgs, no_args, add_arg, InvokeResult, InvokeResultType, success, failure, pending,
}
use cucumber_cpp.Step.Manager.{id_limit, SingleStepMatch, Registry}
use cucumber_cpp.Hook.Registrar.{Hooks}
use cucumber_cpp.Commands.{
  World, CukeCommands, Outcome, Unit0, begin_scenario, end_scenario, invoke, commands_step_matches,
}
use cucumber_cpp.Commands.Snippet.{snippet_text}

pub record StepMatchArg : Type 0 where
  pub value : Text
  pub position : ℤ

pub record StepMatch : Type 0 where
  pub id : Text
  pub args : List StepMatchArg
  pub source : Text
  pub regexp : Text

-- `InvokeException` and its two subclasses.
pub data InvokeException : Type 0 where
  invoke_exception : Text → InvokeException
  invoke_failure_exception : Text → Text → InvokeException
  pending_step_exception : Text → InvokeException

-- How `invokeStep` ends, with the engine behind it.
pub data StepEnd (E : Type 0) : Type 0 where
  completed : E → StepEnd E
  thrown : InvokeException → E → StepEnd E

-- How a call for a scenario ends: it returns, or lets an exception out.
pub data CallEnd (E : Type 0) : Type 0 where
  returned let_out : E → CallEnd E

-- `CukeEngine`, on the state `E` of an engine. `none` is a step that does not come to an end.
pub record CukeEngine (E : Type 0) : Type 0 where
  pub step_matches : Text → E → List StepMatch
  pub begin_scenario : List Text → E → CallEnd E
  pub invoke_step : Text → List Text → List (List Text) → E → Option (StepEnd E)
  pub end_scenario : List Text → E → CallEnd E
  pub snippet_text : Text → Text → Text → E → Text

-- `operator<<` of an unsigned number.
unfoldable pub id_to_string : ℕ → Text
unfolding to_string
id_to_string id = to_string id

-- `operator>>` of an `unsigned int`: white space is skipped, and then a sign; digits are read as
-- far as there are any. No digits are 0, what does not fit is the largest number, and a negative
-- number wraps around. A text without anything but space leaves the variable as it was.
unfoldable pub skip_blank : Text → Text
skip_blank [] = []
skip_blank (c ∷ s) = let rest = skip_blank s in if is_space c then rest else c ∷ s

unfoldable pub is_digit : ℕ → Bool
is_digit c = leb b'0' c && leb c b'9'

unfoldable pub read_digits : Text → ℕ → ℕ
unfolding is_digit
read_digits [] n = n
read_digits (c ∷ s) n =
    let longer = read_digits s (n * 10 + (c - b'0')) in if is_digit c then longer else n

unfoldable pub saturate : Bool → ℕ → ℕ
saturate negative n =
    if ltb n id_limit then (if negative then (id_limit - n) % id_limit else n) else id_limit - 1

unfoldable pub read_signed : ℕ → Text → ℕ
unfolding saturate read_digits
read_signed uninitialised [] = uninitialised
read_signed uninitialised (c ∷ s) =
    if c == b'-'
    then saturate true (read_digits s 0)
    else if c == b'+'
    then saturate false (read_digits s 0)
    else saturate false (read_digits (c ∷ s) 0)

-- `convertId` of a text; the local variable starts with any value.
unfoldable pub convert_id : ℕ → Text → ℕ
unfolding skip_blank read_signed
convert_id uninitialised stringid = read_signed uninitialised (skip_blank stringid)

abbrev pub match_arg : RegexSubmatch → StepMatchArg
match_arg a = record { value = a.value; position = a.position }

unfoldable pub engine_match : {S : Type 0} → SingleStepMatch S → StepMatch
unfolding id_to_string
engine_match m = record {
  id = id_to_string m.step_info.id;
  args = map match_arg m.submatches;
  source = m.step_info.source;
  regexp = m.step_info.step_def;
}

unfoldable pub engine_step_matches :
    {U : Type 0} → RegexEngine → Registry (World U) → Text → List StepMatch
unfolding engine_match
engine_step_matches engine registry name =
    map engine_match (commands_step_matches engine registry name)

-- The loops that fill the arguments of a step. `none` is an exception.
unfoldable pub add_args : List Text → InvokeArgs → InvokeArgs
unfolding add_arg
add_args [] a = a
add_args (arg ∷ args) a = add_args args (add_arg arg a)

abbrev pub succeeded : TableResult Table → Option Table
succeeded (TableResult.done t) = some t
succeeded (TableResult.fail e) = none
succeeded TableResult.out_of_range = none

unfoldable pub add_columns : List Text → Table → Option Table
unfolding add_column
add_columns [] t = some t
add_columns (c ∷ columns) t = do t' ← succeeded (add_column c t); add_columns columns t'

unfoldable pub add_rows : List (List Text) → Table → Option Table
unfolding add_row
add_rows [] t = some t
add_rows (row ∷ rows) t = do t' ← succeeded (add_row row t); add_rows rows t'

unfoldable pub fill_table : List (List Text) → Table → Option Table
unfolding add_columns add_rows
fill_table [] t = some t
fill_table (front ∷ rows) t =
    if is_empty front then some t else (do t' ← add_columns front t; add_rows rows t')

unfoldable pub command_args : List Text → List (List Text) → Option InvokeArgs
unfolding add_args fill_table
command_args args table_arg = do
  let a = add_args args no_args
  t ← fill_table table_arg a.table_arg
  some (record a { table_arg = t })

module _ {U : Type 0} where
  -- The `switch` on the type of the result.
  abbrev pub verdict_of : InvokeResultType → Text → CukeCommands U → StepEnd (CukeCommands U)
  verdict_of success description c = completed c
  verdict_of failure description c = thrown (invoke_failure_exception description []) c
  verdict_of pending description c = thrown (pending_step_exception description) c

  abbrev pub conclude_step : Outcome U InvokeResult → StepEnd (CukeCommands U)
  conclude_step (Outcome.done result c) = verdict_of result.type result.description c
  conclude_step (Outcome.escaped t c) = thrown (invoke_exception (codes "Uncatched exception")) c

  -- `none` is a chain of hooks whose fuel ran out.
  unfoldable pub invoke_with :
      Hooks (World U)
      → Registry (World U)
      → ℕ
      → Option InvokeArgs
      → CukeCommands U
      → Option (StepEnd (CukeCommands U))
  invoke_with hooks registry id none c =
      some (thrown (invoke_exception (codes "Unable to decode arguments")) c)
  invoke_with hooks registry id (some args) c = elim (invoke hooks registry id args c) [
    | none ↦ none
    | some outcome ↦ some (conclude_step outcome)
  ]

  unfoldable pub invoke_step :
      Hooks (World U)
      → Registry (World U)
      → ℕ
      → Text
      → List Text
      → List (List Text)
      → CukeCommands U
      → Option (StepEnd (CukeCommands U))
  unfolding invoke_with convert_id command_args
  invoke_step hooks registry uninitialised id args table_arg c =
      invoke_with hooks registry (convert_id uninitialised id) (command_args args table_arg) c

  unfoldable pub engine_begin_scenario :
      Hooks (World U) → List Text → CukeCommands U → Outcome U Unit0
  engine_begin_scenario hooks tags c = begin_scenario hooks tags c

  -- The tags are not used.
  unfoldable pub engine_end_scenario :
      Hooks (World U) → List Text → CukeCommands U → Outcome U Unit0
  engine_end_scenario hooks tags c = end_scenario hooks c

abbrev pub engine_snippet_text : Text → Text → Text → Text
engine_snippet_text = snippet_text
