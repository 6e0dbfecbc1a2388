-- ===== src/Tag.antt =====
-- src/Tag.cpp and include/cucumber-cpp/internal/hook/Tag.hpp: tag expressions and their notation.
pub mod OrNotation
pub mod Matching
pub mod Notation
mod Tests
use cucumber_cpp.Base.{
  ℕ, zero, suc, ◌+◌, Bool, true, false, not, ◌&&◌, ◌||◌, Option, none, some, List, [], ◌∷◌, ◌++◌,
  leb, ◌==◌, if◌then◌else◌, length, Text, codes, equal, contains,
}

pub record OrTagExpression : Type 0 where
  pub or_tags : List Text

pub record AndTagExpression : Type 0 where
  pub or_expressions : List OrTagExpression

-- `AndTagExpression() = default`.
abbrev pub no_tags : AndTagExpression
no_tags = record { or_expressions = [] }

unfoldable pub or_tag_matches_tag_list : Text → List Text → Bool
or_tag_matches_tag_list current_or_tag [] = false
or_tag_matches_tag_list current_or_tag (t ∷ tags) =
    if equal t current_or_tag then true else or_tag_matches_tag_list current_or_tag tags

-- The loop of `OrTagExpression::matches`.
unfoldable pub any_matches : List Text → List Text → Bool
unfolding or_tag_matches_tag_list
any_matches [] tags = false
any_matches (o ∷ or_tags) tags =
    if or_tag_matches_tag_list o tags then true else any_matches or_tags tags

unfoldable pub or_matches : OrTagExpression → List Text → Bool
unfolding any_matches
or_matches e tags = any_matches e.or_tags tags

-- The loop of `AndTagExpression::matches`, which stops when `match` is false.
unfoldable pub all_match : Bool → List OrTagExpression → List Text → Bool
unfolding or_matches
all_match match [] tags = match
all_match false (o ∷ or_expressions) tags = false
all_match true (o ∷ or_expressions) tags = all_match (or_matches o tags) or_expressions tags

unfoldable pub and_matches : AndTagExpression → List Text → Bool
unfolding all_match
and_matches e tags = all_match true e.or_expressions tags

-- `\s` and `\w`, on ASCII bytes.
unfoldable pub is_space : ℕ → Bool
is_space c = c == b' ' || (leb 9 c && leb c 13)

unfoldable pub is_word : ℕ → Bool
is_word c =
    (leb b'a' c && leb c b'z')
    || (leb b'A' c && leb c b'Z')
    || (leb b'0' c && leb c b'9')
    || c == b'_'

-- `\s*`: no character behind it in the two expressions is a space, so the longest match is the
-- only one.
unfoldable pub skip_spaces : Text → Text
unfolding is_space
skip_spaces [] = []
skip_spaces (c ∷ s) = let rest = skip_spaces s in if is_space c then rest else c ∷ s

-- The longest run of characters that pass, and what is behind it.
unfoldable pub span : (ℕ → Bool) → Text → Text × Text
span pass [] = ([], [])
span pass (c ∷ s) = let (run, rest) = span pass s in if pass c then (c ∷ run, rest) else ([], c ∷ s)

-- `\s*(?:,|$)`.
unfoldable pub separator : Text → Option Text
unfolding skip_spaces
separator s = elim (skip_spaces s) [
  | [] ↦ some []
  | c ∷ rest ↦ if c == b',' then some rest else none
]

-- The capture, if it is not empty, and the rest behind the separator.
unfoldable pub captured : Text × Text → Option (Text × Text)
unfolding separator
captured ([], rest) = none
captured (c ∷ run, rest) = elim (separator rest) [
  | none ↦ none
  | some behind ↦ some (c ∷ run, behind)
]

-- One match of `\s*@(\w+)\s*(?:,|$)` at the front of the text.
unfoldable pub match_or_tag : Text → Option (Text × Text)
unfolding is_word skip_spaces span captured
match_or_tag s = elim (skip_spaces s) [
  | [] ↦ none
  | c ∷ rest ↦ if c == b'@' then captured (span is_word rest) else none
]

-- The closing quote is read behind the capture.
unfoldable pub closed : Text × Text → Option (Text × Text)
unfolding captured
closed (run, []) = none
closed (run, c ∷ rest) = if c == b'"' then captured (run, rest) else none

-- One match of `\s*"([^"]+)"\s*(?:,|$)` at the front of the text.
unfoldable pub match_quoted : Text → Option (Text × Text)
unfolding skip_spaces span closed
match_quoted s = elim (skip_spaces s) [
  | [] ↦ none
  | c ∷ rest ↦ if c == b'"' then closed (span (λ d. not (d == b'"')) rest) else none
]

-- `findAll`: each match begins where the one before it ends. Every match reads a character, so the
-- length of the text is fuel enough.
unfoldable pub find_all : (Text → Option (Text × Text)) → ℕ → Text → List Text
find_all match_one zero s = []
find_all match_one (suc fuel) s = elim (match_one s) [
  | none ↦ []
  | some (capture, rest) ↦ capture ∷ find_all match_one fuel rest
]

unfoldable pub or_tag_expression : Text → OrTagExpression
unfolding match_or_tag find_all
or_tag_expression csv = record { or_tags = find_all match_or_tag (length csv) csv }

abbrev pub or_tag_expressions : List Text → List OrTagExpression
or_tag_expressions [] = []
or_tag_expressions (csv ∷ more) = or_tag_expression csv ∷ or_tag_expressions more

unfoldable pub and_tag_expression : Text → AndTagExpression
unfolding match_quoted find_all or_tag_expression
and_tag_expression csv = record {
  or_expressions = or_tag_expressions (find_all match_quoted (length csv) csv);
}
