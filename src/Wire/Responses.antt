-- ===== src/Wire/Responses.antt =====
-- The responses of the wire protocol, as the client reads them.
use cucumber_cpp.Base.{
  ℤ, ◌≡◌, ◌∙◌, refl, ap, ap₂, true, false, Option, none, some, List, [], ◌∷◌, ◌++◌, ◌>>=◌, map,
  if◌then◌else◌, Text, codes, equal, lookup,
}
use cucumber_cpp.Engine.{StepMatchArg, StepMatch}
use cucumber_cpp.Wire.Json.{Json}
use cucumber_cpp.Wire.Encoder.{
  WireResponse, success_response, failure_response, pending_response, step_matches_response,
  snippet_text_response, non_empty, output, output_success, output_fail, failure_detail, json_arg,
  json_match, accept, wire_response_encoder,
}
use cucumber_cpp.Wire.Requests.{IsJson, has_distinct_keys}

-- What the client needs besides: it reads numbers back as they were made, and null is neither a
-- string nor an array nor an object.
pub record Reader (json : Json) : Type 0 where
  pub get_number : json.Value → Option ℤ

pub record IsReader (json : Json) (reader : Reader json) : Type 0 where
  pub get_number-number : (n : ℤ) → reader.get_number (json.number n) ≡ some n
  pub is_null-string : (s : Text) → json.is_null (json.string s) ≡ false
  pub is_null-array : (vs : List json.Value) → json.is_null (json.array vs) ≡ false

module _ (json : Json) (reader : Reader json) where
  -- The text under a key; a key that is missing stands for the empty text.
  abbrev text_or_empty : Option json.Value → Text
  text_or_empty none = []
  text_or_empty (some v) = elim (json.get_string v) [ none ↦ [] | some s ↦ s ]

  abbrev text_at : json.Value → Text → Text
  text_at v key = text_or_empty (json.at_key v key)

  abbrev read_arg : json.Value → Option StepMatchArg
  read_arg v = do
    val ← json.at_key v (codes "val")
    value ← json.get_string val
    number ← json.at_key v (codes "pos")
    position ← reader.get_number number
    some (record { value = value; position = position })

  abbrev read_args : List json.Value → Option (List StepMatchArg)
  read_args [] = some []
  read_args (v ∷ vs) = do a ← read_arg v; rest ← read_args vs; some (a ∷ rest)

  abbrev read_match : json.Value → Option StepMatch
  read_match v = do
    name ← json.at_key v (codes "id")
    id ← json.get_string name
    list ← json.at_key v (codes "args")
    args ← read_args (json.elements list)
    some (record {
      id = id;
      args = args;
      source = text_at v (codes "source");
      regexp = text_at v (codes "regexp");
    })

  abbrev read_matches : List json.Value → Option (List StepMatch)
  read_matches [] = some []
  read_matches (v ∷ vs) = do m ← read_match v; rest ← read_matches vs; some (m ∷ rest)

  -- A success with a string is a snippet, one with an array the matching steps.
  abbrev read_success : json.Value → Option WireResponse
  read_success detail =
      if json.is_string detail
      then (do s ← json.get_string detail; some (snippet_text_response s))
      else (do
        matching ← read_matches (json.elements detail)
        some (step_matches_response matching))

  abbrev read_detail : Text → json.Value → Option WireResponse
  read_detail kind detail =
      if equal kind (codes "success")
      then read_success detail
      else if equal kind (codes "fail")
      then some
          (failure_response (text_at detail (codes "message")) (text_at detail (codes "exception")))
      else if equal kind (codes "pending")
      then (do message ← json.get_string detail; some (pending_response message))
      else none

  abbrev read_plain : Text → Option WireResponse
  read_plain kind =
      if equal kind (codes "success")
      then some success_response
      else if equal kind (codes "fail")
      then some (failure_response [] [])
      else none

  abbrev read_kind : Text → List json.Value → Option WireResponse
  read_kind kind [] = read_plain kind
  read_kind kind (detail ∷ rest) = read_detail kind detail

  abbrev read_elements : List json.Value → Option WireResponse
  read_elements [] = none
  read_elements (first ∷ rest) = do kind ← json.get_string first; read_kind kind rest

  abbrev pub read_response : json.Value → Option WireResponse
  read_response v = read_elements (json.elements v)

  module _ (laws : IsJson json) (reads : IsReader json reader) where
    abbrev arg_fields : StepMatchArg → List (Text × json.Value)
    arg_fields a = (codes "val", json.string a.value) ∷ (codes "pos", json.number a.position) ∷ []

    read_args-map : (args : List StepMatchArg) → read_args (map (json_arg json) args) ≡ some args
    unfolding lookup
    read_args-map [] = refl
    read_args-map (a ∷ args) =
        rw
          (
            laws.at_key-object (arg_fields a) (codes "val") refl,
            laws.get_string-string,
            laws.at_key-object (arg_fields a) (codes "pos") refl,
            reads.get_number-number,
            read_args-map args,
          )
          refl

    abbrev optional : Text → Text → List (Text × json.Value)
    optional source regexp =
        non_empty json (codes "source") source ++ non_empty json (codes "regexp") regexp

    abbrev match_fields : StepMatch → List (Text × json.Value)
    match_fields m =
        (codes "id", json.string m.id)
        ∷ (codes "args", json.array (map (json_arg json) m.args))
        ∷ optional m.source m.regexp

    match_fields_distinct : (m : StepMatch) → has_distinct_keys (match_fields m) ≡ true
    match_fields_distinct m = distinct m.source m.regexp
      where
        distinct :
            (source regexp : Text)
            → has_distinct_keys (match_fields (record m { source = source; regexp = regexp }))
              ≡ true
        distinct [] [] = refl
        distinct [] (c ∷ s) = refl
        distinct (c ∷ s) [] = refl
        distinct (c ∷ s) (d ∷ r) = refl

    source_at :
        (source regexp : Text)
        → text_or_empty (lookup (codes "source") (optional source regexp)) ≡ source
    unfolding lookup
    source_at [] [] = refl
    source_at [] (c ∷ s) = refl
    source_at (c ∷ s) regexp = rw laws.get_string-string refl

    regexp_at :
        (source regexp : Text)
        → text_or_empty (lookup (codes "regexp") (optional source regexp)) ≡ regexp
    unfolding lookup
    regexp_at [] [] = refl
    regexp_at [] (c ∷ s) = rw laws.get_string-string refl
    regexp_at (c ∷ s) [] = refl
    regexp_at (c ∷ s) (d ∷ r) = rw laws.get_string-string refl

    read_match-json_match : (m : StepMatch) → read_match (json_match json m) ≡ some m
    unfolding lookup
    read_match-json_match m =
        rw
          (
            laws.at_key-object (match_fields m) (codes "id") (match_fields_distinct m),
            laws.get_string-string,
            laws.at_key-object (match_fields m) (codes "args") (match_fields_distinct m),
            laws.elements-array,
            read_args-map m.args,
          )
          (ap₂ (λ source regexp. some (record m { source = source; regexp = regexp }))
            (found (codes "source") ∙ source_at m.source m.regexp)
            (found (codes "regexp") ∙ regexp_at m.source m.regexp))
      where
        found :
            (k : Text)
            → text_or_empty (json.at_key (json_match json m) k)
              ≡ text_or_empty (lookup k (match_fields m))
        found k = ap text_or_empty (laws.at_key-object (match_fields m) k (match_fields_distinct m))

    read_matches-map :
        (matching : List StepMatch) → read_matches (map (json_match json) matching) ≡ some matching
    read_matches-map [] = refl
    read_matches-map (m ∷ matching) = rw (read_match-json_match m, read_matches-map matching) refl

    failure_text :
        (message exception_type : Text)
        → read_elements (
            output_fail json
              (failure_detail json (
                non_empty json (codes "message") message
                ++ non_empty json (codes "exception") exception_type))
              [])
          ≡ some (failure_response message exception_type)
    unfolding output_fail lookup
    failure_text [] [] = rw laws.get_string-string refl
    failure_text [] (c ∷ s) =
        rw
          (
            laws.is_null-object,
            laws.get_string-string,
            laws.at_key-object ((codes "exception", json.string (c ∷ s)) ∷ []) (codes "message")
                refl,
            laws.at_key-object ((codes "exception", json.string (c ∷ s)) ∷ []) (codes "exception")
                refl,
            laws.get_string-string,
          )
          refl
    failure_text (c ∷ s) [] =
        rw
          (
            laws.is_null-object,
            laws.get_string-string,
            laws.at_key-object ((codes "message", json.string (c ∷ s)) ∷ []) (codes "message") refl,
            laws.at_key-object ((codes "message", json.string (c ∷ s)) ∷ []) (codes "exception")
                refl,
            laws.get_string-string,
          )
          refl
    failure_text (c ∷ s) (d ∷ r) =
        rw
          (
            laws.is_null-object,
            laws.get_string-string,
            laws.at_key-object
                ((codes "message", json.string (c ∷ s))
                  ∷ (codes "exception", json.string (d ∷ r))
                  ∷ [])
                (codes "message") refl,
            laws.at_key-object
                ((codes "message", json.string (c ∷ s))
                  ∷ (codes "exception", json.string (d ∷ r))
                  ∷ [])
                (codes "exception") refl,
            laws.get_string-string,
            laws.get_string-string,
          )
          refl

    read_elements-accept :
        (response : WireResponse)
        → read_elements (accept (wire_response_encoder json) response []) ≡ some response
    unfolding accept wire_response_encoder output_success output
    read_elements-accept success_response = rw laws.get_string-string refl
    read_elements-accept (failure_response message exception_type) =
        failure_text message exception_type
    read_elements-accept (pending_response message) =
        rw (reads.is_null-string, laws.get_string-string, laws.get_string-string) refl
    read_elements-accept (step_matches_response matching) =
        rw
          (
            reads.is_null-array,
            laws.get_string-string,
            laws.is_string-array,
            laws.elements-array,
            read_matches-map matching,
          )
          refl
    read_elements-accept (snippet_text_response s) =
        rw
          (
            reads.is_null-string, laws.get_string-string, laws.is_string-string,
            laws.get_string-string,
          )
          refl

    -- The value that the encoder writes for a response is read by a client as that response: a
    -- success and its matches or snippet, a failure and its texts, empty ones included, or a pending
    -- step. JSON values are read back as they were made, objects as maps.
    pub read_response-accept :
        (response : WireResponse)
        → read_response (json.array (accept (wire_response_encoder json) response []))
          ≡ some response
    read_response-accept response =
        ap read_elements (laws.elements-array _) ∙ read_elements-accept response
