-- ===== src/Wire/Requests.antt =====
-- The requests of the wire protocol, as the client writes them, and their decoding.
use cucumber_cpp.Base.{
  ℕ, suc, ◌≡◌, ◌∙◌, refl, ap, Bool, true, false, some, List, [], ◌∷◌, ◌++◌, ◌>>=◌, map, ==_refl,
  length, if◌then◌else◌, equal, get_elem?, Text, codes, All, lookup, append_assoc, append-nil,
}
use cucumber_cpp.Wire.Json.{Json}
use cucumber_cpp.Wire.Decoder.{
  WireCommand, begin_scenario_command, end_scenario_command, step_matches_command, invoke_command,
  snippet_text_command, failing_command, resize, all_strings, get_scenario_tags,
  begin_scenario_decoder, end_scenario_decoder, step_matches_decoder, fill_rows, fill_table_arg,
  fill_invoke_args, invoke_decoder, snippet_text_decoder, try_decode, decode, or_failing,
  command_decoders_map,
}

-- No key is there twice.
abbrev pub has_key : {V : Type 0} → Text → List (Text × V) → Bool
has_key k [] = false
has_key k ((j, v) ∷ m) = if equal j k then true else has_key k m

abbrev pub has_distinct_keys : {V : Type 0} → List (Text × V) → Bool
has_distinct_keys [] = true
has_distinct_keys ((k, v) ∷ m) = if has_key k m then false else has_distinct_keys m

-- What the decoders rely on: values are read back as they were made. An object is a map, made of
-- fields with different keys, which gives them back in an order of its own.
pub record IsJson (json : Json) : Type 0 where
  pub is_null-object : (m : List (Text × json.Value)) → json.is_null (json.object m) ≡ false
  pub is_string-string : (s : Text) → json.is_string (json.string s) ≡ true
  pub is_string-array : (vs : List json.Value) → json.is_string (json.array vs) ≡ false
  pub is_array-array : (vs : List json.Value) → json.is_array (json.array vs) ≡ true
  pub size-array : (vs : List json.Value) → json.size (json.array vs) ≡ length vs
  pub elements-array : (vs : List json.Value) → json.elements (json.array vs) ≡ vs
  pub at-array : (vs : List json.Value) (i : ℕ) → json.at (json.array vs) i ≡ get_elem? vs i
  pub at_key-object :
      (m : List (Text × json.Value)) (k : Text)
      → has_distinct_keys m ≡ true
      → json.at_key (json.object m) k ≡ lookup k m
  pub get_string-string : (s : Text) → json.get_string (json.string s) ≡ some s
  pub get_strings-array :
      (ss : List Text) → json.get_strings (json.array (map json.string ss)) ≡ some ss
  pub get_object-object :
      (m : List (Text × json.Value))
      → has_distinct_keys m ≡ true
      → (m' : List (Text × json.Value)) × (json.get_object (json.object m) ≡ some m')
        × ((k : Text) → lookup k m' ≡ lookup k m)

-- Every row is as long as the first one, and there is a table or none.
abbrev pub IsRectangular : List (List Text) → Type 0
IsRectangular [] = Unit
IsRectangular (front ∷ rows) = All (λ row. length row ≡ length front) rows

module _ (json : Json) where
  abbrev pub strings : List Text → json.Value
  strings ss = json.array (map json.string ss)

  -- The table is the last argument, if there is one.
  abbrev pub table_args : List (List Text) → List json.Value
  table_args [] = []
  table_args (front ∷ rows) = json.array (map strings (front ∷ rows)) ∷ []

  -- The name of a command, and its arguments.
  abbrev pub request_of : Text → List (Text × json.Value) → json.Value
  request_of name fields = json.array (json.string name ∷ json.object fields ∷ [])

  abbrev pub request : WireCommand → json.Value
  request (begin_scenario_command tags) =
      request_of (codes "begin_scenario") ((codes "tags", strings tags) ∷ [])
  request (end_scenario_command tags) =
      request_of (codes "end_scenario") ((codes "tags", strings tags) ∷ [])
  request (step_matches_command name_to_match) =
      request_of (codes "step_matches") ((codes "name_to_match", json.string name_to_match) ∷ [])
  request (invoke_command id args table_arg) = request_of (codes "invoke") (
      (codes "id", json.string id)
      ∷ (codes "args", json.array (map json.string args ++ table_args table_arg))
      ∷ [])
  request (snippet_text_command step_keyword step_name multiline_arg_class) =
      request_of (codes "snippet_text") (
        (codes "step_keyword", json.string step_keyword)
        ∷ (codes "step_name", json.string step_name)
        ∷ (codes "multiline_arg_class", json.string multiline_arg_class)
        ∷ [])
  request failing_command = json.null

  -- The commands that a client can ask for.
  abbrev pub IsRequested : WireCommand → Type 0
  IsRequested (invoke_command id args table_arg) = IsRectangular table_arg
  IsRequested failing_command = ⊥
  IsRequested _ = Unit

  module _ (laws : IsJson json) where
    all_strings_lem : (ss : List Text) → all_strings json (map json.string ss) ≡ some ss
    unfolding all_strings
    all_strings_lem [] = refl
    all_strings_lem (s ∷ ss) = rw (laws.get_string-string s, all_strings_lem ss) refl

    tags_lem :
        (tags : List Text)
        → get_scenario_tags json (json.object ((codes "tags", strings tags) ∷ [])) ≡ some tags
    unfolding get_scenario_tags lookup
    tags_lem tags =
        rw
          (
            laws.is_null-object ((codes "tags", strings tags) ∷ []),
            laws.at_key-object ((codes "tags", strings tags) ∷ []) (codes "tags") refl,
            laws.elements-array (map json.string tags),
          )
          (all_strings_lem tags)

    fill_rows_lem :
        (columns : ℕ) (rows : List (List Text))
        → All (λ row. length row ≡ columns) rows
        → fill_rows json columns (map strings rows) (resize (length rows) []) ≡ some rows
    unfolding fill_rows resize
    fill_rows_lem columns [] a = refl
    fill_rows_lem columns (row ∷ rows) a =
        rw (laws.get_strings-array row, fill_rows_lem columns rows a.1, a.0, ==_refl columns) refl

    length-map : {A B : Type 0} (f : A → B) (xs : List A) → length (map f xs) ≡ length xs
    length-map f [] = refl
    length-map f (x ∷ xs) = ap suc (length-map f xs)

    fill_table_arg_lem :
        (front : List Text) (rows : List (List Text))
        → IsRectangular (front ∷ rows)
        → fill_table_arg json (map strings (front ∷ rows)) [] ≡ some (front ∷ rows)
    unfolding fill_table_arg
    fill_table_arg_lem front rows a =
        rw
          (
            laws.get_strings-array front,
            length-map strings rows,
            fill_rows_lem (length front) rows a,
            ==_refl (length front),
          )
          refl

    fill_table_lem :
        (args : List Text) (table_arg : List (List Text))
        → IsRectangular table_arg
        → fill_invoke_args json (table_args table_arg) args [] ≡ some (args, table_arg)
    unfolding fill_invoke_args
    fill_table_lem args [] a = refl
    fill_table_lem args (front ∷ rows) a =
        rw
          (
            laws.is_string-array (map strings (front ∷ rows)),
            laws.is_array-array (map strings (front ∷ rows)),
            laws.elements-array (map strings (front ∷ rows)),
            fill_table_arg_lem front rows a,
          )
          refl

    fill_invoke_args_lem :
        (args done : List Text) (table_arg : List (List Text))
        → IsRectangular table_arg
        → fill_invoke_args json (map json.string args ++ table_args table_arg) done []
          ≡ some (done ++ args, table_arg)
    unfolding fill_invoke_args
    fill_invoke_args_lem [] done table_arg a =
        rw (append-nil done) (fill_table_lem done table_arg a)
    fill_invoke_args_lem (arg ∷ args) done table_arg a =
        rw (laws.is_string-string arg, laws.get_string-string arg)
          (fill_invoke_args_lem args (done ++ arg ∷ []) table_arg a
            ∙ ap (λ x. some (x, table_arg)) (append_assoc done (arg ∷ []) args))

    invoke_lem :
        (id : Text) (args : List Text) (table_arg : List (List Text))
        → IsRectangular table_arg
        → invoke_decoder json (
            json.object (
              (codes "id", json.string id)
              ∷ (codes "args", json.array (map json.string args ++ table_args table_arg))
              ∷ []))
          ≡ some (invoke_command id args table_arg)
    unfolding invoke_decoder lookup
    invoke_lem id args table_arg a =
        let (m, e, found) =
          laws.get_object-object
            ((codes "id", json.string id)
              ∷ (codes "args", json.array (map json.string args ++ table_args table_arg))
              ∷ [])
            refl in
        rw
          (
            e,
            found (codes "id"),
            found (codes "args"),
            laws.get_string-string id,
            laws.elements-array (map json.string args ++ table_args table_arg),
            fill_invoke_args_lem args [] table_arg a,
          )
          refl

    -- A request goes to the decoder of its name.
    request_of_lem :
        (text name : Text) (fields : List (Text × json.Value))
        → json.parse text ≡ some (request_of name fields)
        → try_decode json text
          ≡ (lookup name (command_decoders_map json) >>= λ decoder. decoder (json.object fields))
    unfolding try_decode
    request_of_lem text name fields h =
        let vs = json.string name ∷ json.object fields ∷ [] in
        rw
          (
            h,
            laws.at-array vs 0,
            laws.get_string-string name,
            laws.size-array vs,
            laws.at-array vs 1,
          )
          refl

    decoded :
        (text : Text) (command : WireCommand)
        → try_decode json text ≡ some command
        → decode json text ≡ command
    unfolding decode
    decoded text command h = ap (or_failing json) h

    -- If JSON values are read back as they were made, objects as maps, and a line is parsed to the request that the
    -- client writes for a command, with a rectangular table or none, it is decoded to that command.
    pub decode-request :
        (text : Text) (command : WireCommand)
        → IsRequested command
        → json.parse text ≡ some (request command)
        → decode json text ≡ command
    unfolding begin_scenario_decoder end_scenario_decoder step_matches_decoder snippet_text_decoder
        lookup
    decode-request text (begin_scenario_command tags) r h =
        decoded text _ (request_of_lem text _ _ h ∙ rw (tags_lem tags) refl)
    decode-request text (end_scenario_command tags) r h =
        decoded text _ (request_of_lem text _ _ h ∙ rw (tags_lem tags) refl)
    decode-request text (step_matches_command name_to_match) r h = decoded text _ (
        request_of_lem text _ _ h
        ∙ rw
            (
              laws.at_key-object ((codes "name_to_match", json.string name_to_match) ∷ [])
                  (codes "name_to_match") refl,
              laws.get_string-string name_to_match,
            )
            refl)
    decode-request text (invoke_command id args table_arg) r h =
        decoded text _ (request_of_lem text _ _ h ∙ invoke_lem id args table_arg r)
    decode-request text (snippet_text_command step_keyword step_name multiline_arg_class) r h =
        let (m, e, found) =
          laws.get_object-object
            ((codes "step_keyword", json.string step_keyword)
              ∷ (codes "step_name", json.string step_name)
              ∷ (codes "multiline_arg_class", json.string multiline_arg_class)
              ∷ [])
            refl in
        decoded text _ (
          request_of_lem text _ _ h
          ∙ rw
              (
                e,
                found (codes "step_keyword"),
                found (codes "step_name"),
                found (codes "multiline_arg_class"),
                laws.get_string-string step_keyword,
                laws.get_string-string step_name,
                laws.get_string-string multiline_arg_class,
              )
              refl)
    decode-request text failing_command r h = absurd r
