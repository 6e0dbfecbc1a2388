-- ===== src/Expression/Types.antt =====
-- The parameter types of src/CucumberExpression.cpp: the built-in map, the map read from
-- custom_parameter_types.json, and their merge. A `std::map` is an association list without
-- repeated keys; nothing in this component iterates over the merged map.
pub mod Merge
use cucumber_cpp.Base.{List, [], ◌∷◌, Text, codes, assign, insert_range}

abbrev pub TypeMap : Type 0
TypeMap = List (Text × Text)

abbrev integer_pattern : Text
integer_pattern = codes "-?\\d+"

abbrev float_pattern : Text
float_pattern = codes "(?=.*\\d.*)[-+]?\\d*(?:\\.(?=\\d.*))?\\d*(?:\\d+[E][+-]?\\d+)?"

abbrev string_pattern : Text
string_pattern = codes "\"([^\"\\\\]*(\\\\.[^\"\\\\]*)*)\"|'([^'\\\\]*(\\\\.[^'\\\\]*)*)'"

abbrev pub get_built_in_parameter_types : TypeMap
get_built_in_parameter_types =
    (codes "int", integer_pattern)
    ∷ (codes "float", float_pattern)
    ∷ (codes "word", codes "[^\\s]+")
    ∷ (codes "string", string_pattern)
    ∷ (codes "bigdecimal", float_pattern)
    ∷ (codes "double", float_pattern)
    ∷ (codes "biginteger", integer_pattern)
    ∷ (codes "byte", integer_pattern)
    ∷ (codes "short", integer_pattern)
    ∷ (codes "long", integer_pattern)
    ∷ ([], codes ".*")
    ∷ []

-- What the loop over the parsed file finds at one array item. `skipped`: it is no object, or it
-- lacks one of the two keys. `unreadable`: one of the two values is no string, and `get` throws.
pub data FileItem : Type 0 where
  entry : Text → Text → FileItem
  skipped unreadable : FileItem

-- The file: it cannot be opened, its text is no JSON, its value is no array, or it is an array.
pub data TypesFile : Type 0 where
  absent malformed not_array : TypesFile
  array : List FileItem → TypesFile

-- The loop. An exception ends it, and the map filled so far is returned.
unfoldable pub read_items : List FileItem → TypeMap → TypeMap
unfolding assign
read_items [] types = types
read_items (entry name regexp ∷ items) types = read_items items (assign name regexp types)
read_items (skipped ∷ items) types = read_items items types
read_items (unreadable ∷ items) types = types

unfoldable pub get_custom_parameter_types : TypesFile → TypeMap
unfolding read_items
get_custom_parameter_types absent = []
get_custom_parameter_types malformed = []
get_custom_parameter_types not_array = []
get_custom_parameter_types (array items) = read_items items []

unfoldable pub get_parameter_types : TypesFile → TypeMap
unfolding insert_range get_custom_parameter_types
get_parameter_types file =
    insert_range get_built_in_parameter_types (get_custom_parameter_types file)
