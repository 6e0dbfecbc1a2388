-- ===== src/Regex.antt =====
-- src/Regex.cpp and include/cucumber-cpp/internal/utils/Regex.hpp. The matcher of `std::regex` is
-- an argument: what it finds is the input of these definitions.
pub mod Offset
mod Tests
use Prim.Native.Nat.{bit_and}
use cucumber_cpp.Base.{
  ℕ, suc, zero, Bool, true, false, not, Option, none, some, List, [], ◌∷◌, ◌==◌, if◌then◌else◌,
  length, is_empty, take, Text, ℤ, pos, negsuc, map,
}

pub record RegexSubmatch : Type 0 where
  pub value : Text
  pub position : ℤ

-- A group of a match: not part of it, or its first byte and its text.
pub data Group : Type 0 where
  unmatched : Group
  matched : ℕ → Text → Group

-- `std::regex`: the error that its constructor throws on a pattern, if any; `regex_search`, which
-- gives the groups from group 0 on; and `sregex_token_iterator` with `match_continuous`, which gives
-- the texts of group 1 in the matches that follow each other from the start.
pub record RegexEngine : Type 0 where
  pub regex_error : Text → Option Text
  pub regex_search : Text → Text → Option (List Group)
  pub regex_tokens : Text → Text → List Text

pub record RegexMatch : Type 0 where
  pub regex_matched : Bool
  pub submatches : List RegexSubmatch

-- `isUtf8CodeUnitStartOfCodepoint`, on a byte.
unfoldable pub is_utf8_code_unit_start_of_codepoint : ℕ → Bool
is_utf8_code_unit_start_of_codepoint i = not (bit_and i 0xc0 == 0x80)

-- `count_if`.
unfoldable pub count_if : (ℕ → Bool) → Text → ℕ
count_if pass [] = 0
count_if pass (c ∷ s) = let rest = count_if pass s in if pass c then suc rest else rest

unfoldable pub utf8_codepoint_offset : Text → ℕ → ℕ
unfolding is_utf8_code_unit_start_of_codepoint count_if
utf8_codepoint_offset expression it =
    count_if is_utf8_code_unit_start_of_codepoint (take it expression)

unfoldable pub submatch : Text → Group → RegexSubmatch
unfolding utf8_codepoint_offset
submatch expression unmatched = record { value = []; position = pos 0 }
submatch expression (matched first text) = record {
  value = text;
  position = pos (utf8_codepoint_offset expression first);
}

abbrev pub submatches_of : Text → List Group → List RegexSubmatch
submatches_of expression [] = []
submatches_of expression (g ∷ groups) = submatch expression g ∷ submatches_of expression groups

-- Group 0, the whole match, is skipped.
abbrev pub skip_whole : List Group → List Group
skip_whole [] = []
skip_whole (whole ∷ groups) = groups

-- The constructor of `FindRegexMatch`.
unfoldable pub find_regex_match : Text → Option (List Group) → RegexMatch
unfolding submatch
find_regex_match expression none = record { regex_matched = false; submatches = [] }
find_regex_match expression (some groups) = record {
  regex_matched = true;
  submatches = submatches_of expression (skip_whole groups);
}

-- `Regex::find`.
unfoldable pub find_match : RegexEngine → Text → Text → RegexMatch
unfolding find_regex_match
find_match engine regex expression =
    find_regex_match expression (engine.regex_search regex expression)

-- The constructor of `FindAllRegexMatch`, on the tokens: their positions are not known.
abbrev pub token : Text → RegexSubmatch
token text = record { value = text; position = negsuc 0 }

unfoldable pub find_all_regex_match : List Text → RegexMatch
find_all_regex_match tokens = record {
  regex_matched = not (is_empty (map token tokens));
  submatches = map token tokens;
}

-- `Regex::findAll`.
unfoldable pub find_all_matches : RegexEngine → Text → Text → RegexMatch
unfolding find_all_regex_match
find_all_matches engine regex expression =
    find_all_regex_match (engine.regex_tokens regex expression)
