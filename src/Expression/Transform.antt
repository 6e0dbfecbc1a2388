-- ===== src/Expression/Transform.antt =====
-- `validateRegex` and `cukex::transform`. `std::regex` is the argument `regex_error`: what its
-- constructor throws on a pattern, or `none` where it compiles.
pub mod Outcome
pub mod Spaced
use cucumber_cpp.Base.{
  ℕ, Bool, true, false, Option, none, some, [], ◌∷◌, ◌++◌, if◌then◌else◌, is_empty, Text, c_str,
  codes,
}
use cucumber_cpp.Expression.Error.{
  Exception, Result, ok, throw, undefined, no_fuel, ◌>>=◌, base_error, empty_expression_error,
}
use cucumber_cpp.Expression.Types.{TypeMap}
use cucumber_cpp.Expression.Validate.{validate}
use cucumber_cpp.Expression.Parser.{parse}

unfoldable pub validate_regex : (Text → Option Text) → Text → Result Text
validate_regex regex_error regex = elim (regex_error regex) [
  | none ↦ ok regex
  | some what ↦ throw (base_error (codes "Failed to create valid regex: " ++ c_str what))
]

-- The handler: whatever was thrown is thrown anew, as the base class. `what()` is a C string.
abbrev pub rethrow_invalid : Result Text → Result Text
rethrow_invalid (ok regex) = ok regex
rethrow_invalid (throw e) =
    throw (base_error (codes "Invalid Cucumber expression: " ++ c_str e.what))
rethrow_invalid undefined = undefined
rethrow_invalid no_fuel = no_fuel

abbrev pub anchored : Text → Text
anchored regex = b'^' ∷ (regex ++ b'$' ∷ [])

-- The `try` block.
unfoldable pub parse_and_check : (Text → Option Text) → TypeMap → Text → Result Text
parse_and_check regex_error types expression = do
  regex ← parse types expression
  validate_regex regex_error (anchored regex)

unfoldable pub transform : (Text → Option Text) → TypeMap → Text → Result Text
transform regex_error types expression =
    if is_empty expression then throw empty_expression_error else (do
      depths ← validate expression
      rethrow_invalid (parse_and_check regex_error types expression))
