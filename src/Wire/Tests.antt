-- ===== src/Wire/Tests.antt =====
-- A small model of JSON values, in which the laws hold, and a session of the server.
use cucumber_cpp.Base.{
  suc, ℕ, ◌+◌, ◌≡◌, refl, ap, Bool, true, false, Option, none, some, List, [], ◌∷◌, ◌++◌, ◌>>=◌,
  map, if◌then◌else◌, length, get_elem?, Text, codes, equal, lookup, to_string, ℤ, pos, negsuc,
}
use cucumber_cpp.Commands.{World, CukeCommands, initial}
use cucumber_cpp.Step.Manager.{StepInfo, get_step}
use cucumber_cpp.Table.{empty_table}
use cucumber_cpp.Step.Body as Body
use cucumber_cpp.Step.Drivers as Drivers
use cucumber_cpp.Step.Invoke as Step
use cucumber_cpp.Step.Body.{InvokeArgs, update, set_pending, finish}
use cucumber_cpp.Step.Drivers.{generic}
use cucumber_cpp.Engine.{command_args}
use cucumber_cpp.Wire.Encoder.{
  WireResponse, pending_response, step_matches_response, accept, wire_response_encoder,
}
use cucumber_cpp.Wire.Responses.{Reader, IsReader, read_response, read_response-accept}
use cucumber_cpp.Wire.Invocation.{told}
use cucumber_cpp.Wire.Json.{Json}
use cucumber_cpp.Wire.Decoder.{WireCommand, invoke_command, decode}
use cucumber_cpp.Wire.Handler.{Program, process_stream}
use cucumber_cpp.Wire.Answers.{AnswersEach, process_stream-AnswersEach}
use cucumber_cpp.Wire.Requests.{IsJson, request, decode-request}

-- Arrays and objects are chains of their elements.
pub data Tree : Type 0 where
  null : Tree
  string : Text → Tree
  number : ℤ → Tree
  empty_array : Tree
  element : Tree → Tree → Tree
  empty_object : Tree
  field : Text → Tree → Tree → Tree

abbrev array : List Tree → Tree
array [] = empty_array
array (v ∷ vs) = element v (array vs)

abbrev object : List (Text × Tree) → Tree
object [] = empty_object
object ((k, v) ∷ m) = field k v (object m)

abbrev elements : Tree → List Tree
elements (element v t) = v ∷ elements t
elements _ = []

abbrev fields : Tree → List (Text × Tree)
fields (field k v t) = (k, v) ∷ fields t
fields _ = []

abbrev get_string : Tree → Option Text
get_string (string s) = some s
get_string _ = none

abbrev get_strings : Tree → Option (List Text)
get_strings empty_array = some []
get_strings (element v t) = do s ← get_string v; rest ← get_strings t; some (s ∷ rest)
get_strings _ = none

abbrev get_object : Tree → Option (List (Text × Tree))
get_object empty_object = some []
get_object (field k v t) = some ((k, v) ∷ fields t)
get_object _ = none

abbrev pub print : Tree → Text
print null = codes "null"
print (string s) = b'"' ∷ (s ++ b'"' ∷ [])
print (number (pos n)) = to_string n
print (number (negsuc n)) = b'-' ∷ to_string (suc n)
print empty_array = codes "]"
print (element v t) = print v ++ b',' ∷ print t
print empty_object = codes "}"
print (field k v t) = k ++ b':' ∷ (print v ++ b',' ∷ print t)

abbrev is_null : Tree → Bool
is_null null = true
is_null _ = false

abbrev is_string : Tree → Bool
is_string (string s) = true
is_string _ = false

abbrev is_array : Tree → Bool
is_array empty_array = true
is_array (element v t) = true
is_array _ = false

elements-array : (vs : List Tree) → elements (array vs) ≡ vs
elements-array [] = refl
elements-array (v ∷ vs) = ap (◌∷◌ v) (elements-array vs)

fields-object : (m : List (Text × Tree)) → fields (object m) ≡ m
fields-object [] = refl
fields-object ((k, v) ∷ m) = ap (◌∷◌ (k, v)) (fields-object m)

get_object-object : (m : List (Text × Tree)) → get_object (object m) ≡ some m
get_object-object [] = refl
get_object-object ((k, v) ∷ m) = ap (λ rest. some ((k, v) ∷ rest)) (fields-object m)

get_strings-array : (ss : List Text) → get_strings (array (map string ss)) ≡ some ss
get_strings-array [] = refl
get_strings-array (s ∷ ss) = rw (get_strings-array ss) refl

is_null-object : (m : List (Text × Tree)) → is_null (object m) ≡ false
is_null-object [] = refl
is_null-object ((k, v) ∷ m) = refl

is_string-array : (vs : List Tree) → is_string (array vs) ≡ false
is_string-array [] = refl
is_string-array (v ∷ vs) = refl

is_array-array : (vs : List Tree) → is_array (array vs) ≡ true
is_array-array [] = refl
is_array-array (v ∷ vs) = refl

abbrev pub line : Text
line = codes "the request"

-- A step id, an argument, and a table of two rows.
abbrev command : WireCommand
command =
    invoke_command (codes "1") (codes "p" ∷ [])
      ((codes "name" ∷ codes "age" ∷ []) ∷ (codes "Ada" ∷ codes "36" ∷ []) ∷ [])

-- The values without a parser.
abbrev pub values : (Text → Option Tree) → Json
values parse = record {
  Value = Tree;
  parse = parse;
  dump = λ v. some (print v);
  null = null;
  is_null = is_null;
  is_string = is_string;
  is_array = is_array;
  size = λ v. length (elements v);
  elements = elements;
  at = λ v i. get_elem? (elements v) i;
  at_key = λ v k. lookup k (fields v);
  get_string = get_string;
  get_strings = get_strings;
  get_object = get_object;
  string = string;
  number = number;
  array = array;
  object = object;
}

-- A parser that knows one line.
abbrev pub json : Json
json = values λ text. if equal text line then some (request (values λ _. none) command) else none

-- The laws do not depend on the parser.
pub values-IsJson : (parse : Text → Option Tree) → IsJson (values parse)
values-IsJson parse = record {
  is_null-object = is_null-object;
  is_string-string = λ s. refl;
  is_string-array = is_string-array;
  is_array-array = is_array-array;
  size-array = λ vs. ap length (elements-array vs);
  elements-array = elements-array;
  at-array = λ vs i. ap (λ xs. get_elem? xs i) (elements-array vs);
  at_key-object = λ m k distinct. ap (lookup k) (fields-object m);
  get_string-string = λ s. refl;
  get_strings-array = get_strings-array;
  get_object-object = λ m distinct. (m, get_object-object m, λ k. refl);
}

json-IsJson : IsJson json
json-IsJson =
    values-IsJson
      λ text. if equal text line then some (request (values λ _. none) command) else none

decode-request_example : decode json line ≡ command
decode-request_example = decode-request json json-IsJson line command (refl, tt) refl

abbrev pub program : Program ℕ
program = record {
  engine = record { regex_error = λ r. none; regex_search = λ r s. none; regex_tokens = λ r s. [] };
  hooks = record {
    before_all_hooks = [];
    before_hooks = [];
    around_step_hooks = [];
    after_step_hooks = [];
    after_hooks = [];
    after_all_hooks = [];
  };
  registry = record { current_id = 0; steps = [] };
  uninitialised = 0;
}

abbrev pub idle : CukeCommands ℕ
idle = initial (record {
  contexts = record { contexts = []; held = []; references = λ t. none; next_object = 0 };
  user = 0;
})

process_stream-AnswersEach_example :
    AnswersEach 2 (process_stream json program (line ∷ codes "junk" ∷ []) idle)
process_stream-AnswersEach_example =
    process_stream-AnswersEach program json (line ∷ codes "junk" ∷ []) idle

-- A step that counts and is pending.
abbrev pub counting : StepInfo (World ℕ)
counting = record {
  id = 1;
  regex = codes "x";
  source = codes "x.cpp:1";
  step_def = codes "x";
  driver = generic;
  body = update (λ w. record w { user = suc w.user }) (set_pending (some (codes "later")) finish);
}

abbrev stepping : Program ℕ
stepping = record program { registry = record { current_id = 1; steps = counting ∷ [] } }

abbrev pub one_arg : InvokeArgs
one_arg = record { table_arg = empty_table; args = codes "p" ∷ [] }

found : get_step 1 stepping.registry.steps ≡ some counting
unfolding get_step
found = refl

pub taken : command_args (codes "p" ∷ []) [] ≡ some one_arg
unfolding command_args
taken = refl

told_pending : (told counting one_arg idle).0 ≡ some (pending_response (codes "later"))
unfolding Step.invoke Drivers.invoke_step_body Drivers.generic_step_body Body.run_body
told_pending = refl

abbrev get_number : Tree → Option ℤ
get_number (number n) = some n
get_number _ = none

abbrev tree_reader : Reader json
tree_reader = record { get_number = get_number }

is_null-array : (vs : List Tree) → is_null (array vs) ≡ false
is_null-array [] = refl
is_null-array (v ∷ vs) = refl

tree_reader-IsReader : IsReader json tree_reader
tree_reader-IsReader = record {
  get_number-number = λ n. refl;
  is_null-string = λ s. refl;
  is_null-array = is_null-array;
}

-- A match with an argument whose position is not known.
abbrev response : WireResponse
response = step_matches_response (
    record {
      id = codes "1";
      args = record { value = codes "p"; position = negsuc 0 } ∷ [];
      source = codes "x.cpp:1";
      regexp = [];
    }
    ∷ [])

read_response-accept_example :
    read_response json tree_reader (array (accept (wire_response_encoder json) response []))
    ≡ some response
read_response-accept_example =
    read_response-accept json tree_reader json-IsJson tree_reader-IsReader response

-- The lines of the client, by a letter for each command.
abbrev pub speak : ℕ → List WireCommand → List (Text × WireCommand)
speak n [] = []
speak n (c ∷ rest) = (n ∷ [], c) ∷ speak (n + 1) rest

-- A parser that knows these lines.
abbrev pub answer : Text → List (Text × WireCommand) → Option Tree
answer text [] = none
answer text ((l, c) ∷ rest) =
    if equal text l then some (request (values λ _. none) c) else answer text rest
