-- ===== src/Expression/Validate.antt =====
-- The first loop of `cukex::transform`: braces and parentheses outside escapes.
pub mod Total
pub mod Balance
use cucumber_cpp.Base.{
  ℕ, suc, ◌+◌, ◌-◌, Bool, true, false, [], ◌∷◌, ltb, ◌==◌, if◌then◌else◌, Text, codes,
}
use cucumber_cpp.Expression.Error.{
  Result, ok, throw, ◌>>=◌, base_error, unmatched_closing_brace_error,
  unmatched_closing_parenthesis_error, unclosed_parameter_error, unclosed_optional_error,
}

-- `braceDepth` and `parenDepth`. Neither is ever negative when the loop goes on.
pub record Depths : Type 0 where
  pub brace : ℕ
  pub paren : ℕ

-- One round, on a character that does not follow a backslash.
unfoldable pub validate_char : ℕ → Depths → Result Depths
validate_char c d =
    if c == b'{'
    then (if ltb 1 (d.brace + 1)
        then throw (base_error (codes "Nested parameter types are not allowed"))
        else ok (record d { brace = d.brace + 1 }))
    else if c == b'}'
    then (if d.brace == 0
        then throw unmatched_closing_brace_error
        else ok (record d { brace = d.brace - 1 }))
    else if c == b'('
    then ok (record d { paren = d.paren + 1 })
    else if c == b')'
    then (if d.paren == 0
        then throw unmatched_closing_parenthesis_error
        else ok (record d { paren = d.paren - 1 }))
    else ok d

-- The flag is `i > 0 && expression[i - 1] == '\\'`.
unfoldable pub validate_round : Bool → ℕ → Depths → Result Depths
unfolding validate_char
validate_round escaped c d = if escaped then ok d else validate_char c d

-- The two tests behind the loop.
unfoldable pub validate_end : Depths → Result Depths
validate_end d =
    if d.brace == 0
    then (if d.paren == 0
        then ok d
        else throw
            (unclosed_optional_error (codes "Unclosed optional text: unmatched parentheses")))
    else throw (unclosed_parameter_error (codes "Unclosed parameter type: unmatched braces"))

unfoldable pub validate_from : Bool → Text → Depths → Result Depths
unfolding validate_round validate_end
validate_from escaped [] d = validate_end d
validate_from escaped (c ∷ s) d = do
  d' ← validate_round escaped c d
  validate_from (c == b'\\') s d'

unfoldable pub validate : Text → Result Depths
unfolding validate_from
validate expression = validate_from false expression (record { brace = 0; paren = 0 })
