-- ===== src/Expression/Tests.antt =====
-- The component on expressions of the unit tests and the documents, and the theorems at concrete
-- expressions.
use cucumber_cpp.Base.{
  some, ℕ, ◌≡◌, refl, ◌↔◌, none, Option, List, [], ◌∷◌, Text, codes, lookup, or_else, arith,
}
use cucumber_cpp.Expression.Error.{Result, ok, throw, Exception, base_error, undefined, Settles}
use cucumber_cpp.Expression.Types.{
  TypeMap, get_built_in_parameter_types, get_custom_parameter_types, get_parameter_types, absent,
  array, FileItem, entry, skipped,
}
use cucumber_cpp.Expression.Types.Merge.{
  lookup-get_parameter_types, last_entry, lookup-get_custom_parameter_types,
}
use cucumber_cpp.Expression.Validate.Total.{IsThrown}
use cucumber_cpp.Expression.Validate.Balance.{IsBalanced, no_depths, validate_iff}
use cucumber_cpp.Expression.Parser.Total.{parse-Settles}
use cucumber_cpp.Expression.Alternatives.Words.{Word}
use cucumber_cpp.Expression.Parser.Phrases.{Segment, parts, choice}
use cucumber_cpp.Expression.Parser.Tokens.{Token, plain, escaped, parameter, optional}
use cucumber_cpp.Expression.Transform.Outcome.{
  transform-Settles, transform_front_slash, transform-IsThrown,
}
use cucumber_cpp.Expression.Transform.{transform, parse_and_check, validate_regex}
use cucumber_cpp.Expression.Validate.{Depths, validate}
use cucumber_cpp.Expression.Escape.{escape_char}
use cucumber_cpp.Expression.Parser.{
  parse, parse_from, parse_round, is_escapable, parse_escaping, parse_open_brace,
  parse_open_parenthesis, parse_alternatives,
}
use Prim.Native.String.{String}

run : String → Result Text
unfolding transform validate parse_and_check validate_regex parse parse_from parse_round
    is_escapable parse_escaping parse_open_brace parse_open_parenthesis parse_alternatives
    escape_char get_parameter_types
run s = transform (λ r. none) (get_parameter_types absent) (codes s)

parameter_example : run "I have {int} cucumbers" ≡ ok (codes "^I have (-?\\d+) cucumbers$")
unfolding run
parameter_example = refl

alternatives_example :
    run "there is/are {int} flight(s)" ≡ ok (codes "^there (?:is|are) (-?\\d+) flight(?:s)?$")
unfolding run
alternatives_example = refl

escape_example : run "I have \\{literal\\} braces" ≡ ok (codes "^I have \\{literal\\} braces$")
unfolding run
escape_example = refl

empty_alternative_example : run "a /b" ≡ ok (codes "^a $")
unfolding run
empty_alternative_example = refl

front_slash_example : run "/b" ≡ undefined
unfolding run
front_slash_example = refl

unknown_type_example :
    run "{foo}"
    ≡ throw (base_error (codes "Invalid Cucumber expression: Unknown parameter type: {foo}"))
unfolding run
unknown_type_example = refl

escaped_slash_example : run "a/b\\/c" ≡ ok (codes "^(?:a|bc)$")
unfolding run
escaped_slash_example = refl

abbrev some_types : TypeMap
some_types = (codes "int", codes "\\d+") ∷ []

-- `x\{{int}(s)`.
abbrev tokens : List Token
tokens = plain b'x' ∷ escaped b'{' ∷ parameter (codes "int") (codes "\\d+") ∷ optional b's' [] ∷ []

abbrev word : ℕ → Word
word c = record { first = c; others = [] }

-- `x\\{{int}(s) a/b/c z`.
abbrev segments : List Segment
segments = choice (word b'a') (word b'b') (word b'c' ∷ []) ∷ parts (plain b'z' ∷ []) ∷ []

abbrev any_regex : Text → Option Text
any_regex r = none

transform-Settles_example : Settles (transform any_regex some_types (codes "x/y {int}"))
transform-Settles_example =
    transform-Settles any_regex some_types (codes "x/y {int}") (λ h. omega (arith, h))

parse-Settles_example : Settles (parse some_types (codes "x (y"))
parse-Settles_example = parse-Settles some_types (codes "x (y") (λ h. omega (arith, h))

slash_valid : validate (codes "/b") ≡ ok no_depths
unfolding validate
slash_valid = refl

transform_front_slash_example : transform any_regex some_types (codes "/b") ≡ undefined
transform_front_slash_example =
    transform_front_slash any_regex some_types (codes "b") no_depths slash_valid

-- A text that ends at its second byte as a C string.
abbrev failing_regex : Text → Option Text
failing_regex r = some (b'x' ∷ 0 ∷ b'y' ∷ [])

abbrev unknown_type : Exception
unknown_type = base_error (codes "Invalid Cucumber expression: Unknown parameter type: {foo}")

unknown_thrown : transform any_regex some_types (codes "{foo}") ≡ throw unknown_type
unfolding transform validate parse_and_check validate_regex parse parse_from parse_round
    is_escapable parse_escaping parse_open_brace parse_open_parenthesis parse_alternatives
    escape_char lookup
unknown_thrown = refl

transform-IsThrown_example : IsThrown unknown_type.kind
transform-IsThrown_example = transform-IsThrown any_regex some_types (codes "{foo}") unknown_thrown

validate_iff_example :
    ((r : Depths) × (validate (codes "a {b} (c)") ≡ ok r)) ↔ IsBalanced (codes "a {b} (c)")
validate_iff_example = validate_iff (codes "a {b} (c)")

abbrev items : List FileItem
items = entry (codes "int") (codes "x") ∷ skipped ∷ entry (codes "hue") (codes "red|blue") ∷ []

lookup-get_parameter_types_example :
    lookup (codes "int") (get_parameter_types (array items))
    ≡ or_else
        (lookup (codes "int") get_built_in_parameter_types)
        (lookup (codes "int") (get_custom_parameter_types (array items)))
lookup-get_parameter_types_example = lookup-get_parameter_types (codes "int") (array items)

lookup-get_custom_parameter_types_example :
    lookup (codes "hue") (get_custom_parameter_types (array items)) ≡ last_entry (codes "hue") items
lookup-get_custom_parameter_types_example = lookup-get_custom_parameter_types (codes "hue") items
