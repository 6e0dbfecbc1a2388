-- ===== src/Wire/Decoder.antt =====
-- The command decoders and `JsonWireMessageCodec::decode`. `none` is an exception.
use cucumber_cpp.Base.{
  ℕ, zero, suc, Option, none, some, List, [], ◌∷◌, ◌++◌, ltb, ◌==◌, if◌then◌else◌, length, Text,
  codes, lookup, ◌>>=◌,
}
use cucumber_cpp.Wire.Json.{Json}

-- The subclasses of `WireCommand`.
pub data WireCommand : Type 0 where
  begin_scenario_command : List Text → WireCommand
  end_scenario_command : List Text → WireCommand
  step_matches_command : Text → WireCommand
  invoke_command : Text → List Text → List (List Text) → WireCommand
  snippet_text_command : Text → Text → Text → WireCommand
  failing_command : WireCommand

-- `resize`: the table is cut, or grows by empty rows.
unfoldable pub resize : ℕ → List (List Text) → List (List Text)
resize zero table = []
resize (suc n) [] = [] ∷ resize n []
resize (suc n) (row ∷ table) = row ∷ resize n table

-- The columns of one row are pushed back if there are as many as in the first one.
abbrev pub push_columns : ℕ → List Text → List Text → List Text
push_columns columns json_row row = if length json_row == columns then row ++ json_row else row

module _ (json : Json) where
  unfoldable pub all_strings : List json.Value → Option (List Text)
  all_strings [] = some []
  all_strings (v ∷ values) = do s ← json.get_string v; rest ← all_strings values; some (s ∷ rest)

  unfoldable pub get_scenario_tags : json.Value → Option (List Text)
  unfolding all_strings
  get_scenario_tags json_args = if json.is_null json_args then some [] else (do
    json_tags ← json.at_key json_args (codes "tags")
    all_strings (json.elements json_tags))

  unfoldable pub begin_scenario_decoder : json.Value → Option WireCommand
  unfolding get_scenario_tags
  begin_scenario_decoder json_args = do
    tags ← get_scenario_tags json_args
    some (begin_scenario_command tags)

  unfoldable pub end_scenario_decoder : json.Value → Option WireCommand
  unfolding get_scenario_tags
  end_scenario_decoder json_args = do
    tags ← get_scenario_tags json_args
    some (end_scenario_command tags)

  unfoldable pub step_matches_decoder : json.Value → Option WireCommand
  step_matches_decoder json_args = do
    name ← json.at_key json_args (codes "name_to_match")
    name_to_match ← json.get_string name
    some (step_matches_command name_to_match)

  -- The loop over the rows of the argument and of the resized table.
  unfoldable pub fill_rows : ℕ → List json.Value → List (List Text) → Option (List (List Text))
  fill_rows columns [] table = some table
  fill_rows columns (v ∷ rows) [] = some []
  fill_rows columns (v ∷ rows) (row ∷ table) = do
    json_row ← json.get_strings v
    rest ← fill_rows columns rows table
    some (push_columns columns json_row row ∷ rest)

  -- The rows are the elements of an array.
  unfoldable pub fill_table_arg : List json.Value → List (List Text) → Option (List (List Text))
  unfolding fill_rows resize
  fill_table_arg [] table_arg = some table_arg
  fill_table_arg (front ∷ rows) table_arg = do
    first ← json.get_strings front
    fill_rows (length first) (front ∷ rows) (resize (length (front ∷ rows)) table_arg)

  unfoldable pub fill_invoke_args :
      List json.Value → List Text → List (List Text) → Option (List Text × List (List Text))
  unfolding fill_table_arg
  fill_invoke_args [] args table_arg = some (args, table_arg)
  fill_invoke_args (arg ∷ json_args) args table_arg =
      if json.is_string arg
      then (do s ← json.get_string arg; fill_invoke_args json_args (args ++ s ∷ []) table_arg)
      else if json.is_array arg
      then (do
        table ← fill_table_arg (json.elements arg) table_arg
        fill_invoke_args json_args args table)
      else fill_invoke_args json_args args table_arg

  unfoldable pub invoke_decoder : json.Value → Option WireCommand
  unfolding fill_invoke_args lookup
  invoke_decoder json_args = do
    invoke_params ← json.get_object json_args
    json_id ← lookup (codes "id") invoke_params
    id ← json.get_string json_id
    json_args' ← lookup (codes "args") invoke_params
    (args, table_arg) ← fill_invoke_args (json.elements json_args') [] []
    some (invoke_command id args table_arg)

  unfoldable pub snippet_text_decoder : json.Value → Option WireCommand
  unfolding lookup
  snippet_text_decoder json_args = do
    snippet_text_args ← json.get_object json_args
    json_keyword ← lookup (codes "step_keyword") snippet_text_args
    step_keyword ← json.get_string json_keyword
    json_name ← lookup (codes "step_name") snippet_text_args
    step_name ← json.get_string json_name
    json_class ← lookup (codes "multiline_arg_class") snippet_text_args
    multiline_arg_class ← json.get_string json_class
    some (snippet_text_command step_keyword step_name multiline_arg_class)

  abbrev pub command_decoders_map : List (Text × (json.Value → Option WireCommand))
  command_decoders_map =
      (codes "begin_scenario", begin_scenario_decoder)
      ∷ (codes "end_scenario", end_scenario_decoder)
      ∷ (codes "step_matches", step_matches_decoder)
      ∷ (codes "invoke", invoke_decoder)
      ∷ (codes "snippet_text", snippet_text_decoder)
      ∷ []

  -- The second element of the request, or null.
  abbrev pub request_args : json.Value → Option json.Value
  request_args request = if ltb 1 (json.size request) then json.at request 1 else some json.null

  -- The body of the `try` block.
  unfoldable pub try_decode : Text → Option WireCommand
  unfolding lookup
  try_decode request = do
    json_request ← json.parse request
    json_command ← json.at json_request 0
    name ← json.get_string json_command
    command_decoder ← lookup name command_decoders_map
    json_args ← request_args json_request
    command_decoder json_args

  abbrev pub or_failing : Option WireCommand → WireCommand
  or_failing none = failing_command
  or_failing (some command) = command

  unfoldable pub decode : Text → WireCommand
  unfolding try_decode
  decode request = or_failing (try_decode request)
