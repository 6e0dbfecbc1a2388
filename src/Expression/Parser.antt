-- ===== src/Expression/Parser.antt =====
-- `CucumberExpressionpressionParser`: a position in the expression, and the regex built so far.
pub mod Runs
pub mod Groups
pub mod Choices
pub mod Phrases
pub mod Rounds
pub mod Total
pub mod Tokens
use cucumber_cpp.Base.{
  lookup, ℕ, zero, suc, ◌+◌, ◌-◌, Bool, true, false, ◌&&◌, ◌||◌, Option, none, some, List, [], ◌∷◌,
  ◌++◌, ltb, ◌==◌, if◌then◌else◌, length, is_empty, take, Text, codes, char_at, find_from, rfind,
  substr, to_string,
}
use cucumber_cpp.Expression.Error.{
  Result, ok, throw, undefined, no_fuel, ◌>>=◌, read_at, base_error, unclosed_parameter_error,
  unclosed_optional_error, unknown_parameter_type_error,
}
use cucumber_cpp.Expression.Types.{TypeMap}
use cucumber_cpp.Expression.Escape.{escape_char, escape_regex_chars}
use cucumber_cpp.Expression.Alternatives.{
  Forward, collect_alternatives_from_here, parse_alternative_text,
}

-- The loop variables of `parse`.
pub record Progress : Type 0 where
  pub pos : ℕ
  pub result : Text

-- The characters that a backslash takes literally.
unfoldable pub is_escapable : ℕ → Bool
is_escapable c = c == b'(' || c == b')' || c == b'{' || c == b'}' || c == b'/'

abbrev pub escaped_text : ℕ → Text
escaped_text next =
    let bare = next == b'{' || next == b'}' || next == b'(' || next == b')' in
    if bare then b'\\' ∷ next ∷ [] else next ∷ []

unfoldable pub parse_escaping : Text → Progress → Result Progress
unfolding read_at
parse_escaping expression p = do
  next ← read_at expression (p.pos + 1)
  ok (record p { pos = p.pos + 2; result = p.result ++ escaped_text next })

-- `parseOpenBrace`, behind the search for the type.
unfoldable pub parameter_group : Progress → ℕ → Text → Option Text → Result Progress
parameter_group p close_pos param_type none = throw (unknown_parameter_type_error param_type)
parameter_group p close_pos param_type (some pattern) =
    ok (record { pos = close_pos + 1; result = p.result ++ (b'(' ∷ (pattern ++ codes ")")) })

unfoldable pub parse_open_brace : TypeMap → Text → Progress → Result Progress
unfolding lookup parameter_group
parse_open_brace types expression p = elim (find_from b'}' expression p.pos) [
  | none ↦ throw (
      unclosed_parameter_error
        (codes "Unclosed parameter type: missing '}' at position " ++ to_string p.pos))
  | some close_pos ↦
      let param_type = substr expression (p.pos + 1) (close_pos - p.pos - 1) in
      parameter_group p close_pos param_type (lookup param_type types)
]

-- `parseOpenParenthesis`, behind the search for the closing one.
unfoldable pub optional_group : Progress → ℕ → Text → Result Progress
optional_group p close_pos content =
    if is_empty content
    then throw
        (base_error (codes "Empty optional text is not allowed at position " ++ to_string p.pos))
    else ok (record {
      pos = close_pos + 1;
      result = p.result ++ (codes "(?:" ++ (escape_regex_chars content ++ codes ")?"));
    })

unfoldable pub parse_open_parenthesis : Text → Progress → Result Progress
unfolding escape_regex_chars optional_group
parse_open_parenthesis expression p = elim (find_from b')' expression p.pos) [
  | none ↦ throw (
      unclosed_optional_error
        (codes "Unclosed optional text: missing ')' at position " ++ to_string p.pos))
  | some close_pos ↦
      optional_group p close_pos (substr expression (p.pos + 1) (close_pos - p.pos - 1))
]

-- `back()`, undefined for an empty string.
unfoldable pub back : Text → Result ℕ
back [] = undefined
back (c ∷ []) = ok c
back (c ∷ d ∷ s) = back (d ∷ s)

-- The first loop of `parseAlternatives`. Its result is not used, but it reads `result.back()`.
unfoldable pub find_word_end : ℕ → Text → Result ℕ
unfolding back
find_word_end zero result = ok 0
find_word_end (suc word_end) result = do
  last ← back result
  let rest = find_word_end word_end result
  if last == b' ' || last == b')' then ok (suc word_end) else rest

-- The alternatives of a group, joined by bars.
unfoldable pub join_alternatives : List Text → Result Text
unfolding parse_alternative_text
join_alternatives [] = ok []
join_alternatives (a ∷ []) = parse_alternative_text a
join_alternatives (a ∷ b ∷ more) = do
  first ← parse_alternative_text a
  others ← join_alternatives (b ∷ more)
  ok (first ++ b'|' ∷ others)

-- The regex without its last word.
unfoldable pub drop_last_word : Text → Text
drop_last_word result = elim (rfind b' ' result) [ none ↦ [] | some i ↦ take (i + 1) result ]

unfoldable pub alternatives_group : Progress → Forward → Result Progress
unfolding join_alternatives drop_last_word
alternatives_group p f =
    if ltb 1 (length f.alternatives)
    then (do
      body ← join_alternatives f.alternatives
      ok (record {
        pos = f.pos;
        result = drop_last_word p.result ++ (codes "(?:" ++ (body ++ codes ")"));
      }))
    else ok (record p { pos = f.pos })

-- `pos - 1` wraps at position 0, and the first read is outside the string.
unfoldable pub collect_before : Text → ℕ → Result Forward
unfolding collect_alternatives_from_here
collect_before expression zero = undefined
collect_before expression (suc before) = collect_alternatives_from_here expression before

unfoldable pub parse_alternatives : Text → Progress → Result Progress
unfolding find_word_end collect_before alternatives_group
parse_alternatives expression p = do
  word_end ← find_word_end p.pos p.result
  f ← collect_before expression p.pos
  alternatives_group p f

-- A backslash with a character that it takes literally.
unfoldable pub starts_escape : Text → Progress → ℕ → Result Bool
unfolding read_at is_escapable
starts_escape expression p current =
    if current == b'\\' && ltb (p.pos + 1) (length expression)
    then (do next ← read_at expression (p.pos + 1); ok (is_escapable next))
    else ok false

-- One round of the loop, which reads a character, and the next one behind a backslash.
abbrev pub parse_read : TypeMap → Text → Progress → ℕ → Bool → Result Progress
parse_read types expression p current escapes =
    if escapes
    then parse_escaping expression p
    else if current == b'{'
    then parse_open_brace types expression p
    else if current == b'('
    then parse_open_parenthesis expression p
    else if current == b'/'
    then parse_alternatives expression p
    else ok (record { pos = p.pos + 1; result = p.result ++ escape_char current })

unfoldable pub parse_round : TypeMap → Text → Progress → Result Progress
unfolding read_at starts_escape
parse_round types expression p = do
  current ← read_at expression p.pos
  escapes ← starts_escape expression p current
  parse_read types expression p current escapes

unfoldable pub parse_from : ℕ → TypeMap → Text → Progress → Result Text
parse_from zero types expression p = if ltb p.pos (length expression) then no_fuel else ok p.result
parse_from (suc fuel) types expression p = elim (ltb p.pos (length expression)) [
  | false ↦ ok p.result
  | true ↦ do q ← parse_round types expression p; parse_from fuel types expression q
]

-- Every round goes forward, so the length of the expression is fuel enough.
unfoldable pub parse : TypeMap → Text → Result Text
parse types expression =
    parse_from (length expression) types expression (record { pos = 0; result = [] })
