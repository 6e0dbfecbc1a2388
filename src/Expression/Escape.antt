-- ===== src/Expression/Escape.antt =====
-- `escapeRegexChars`, and the test for regex special characters that three functions of the
-- parser share.
use cucumber_cpp.Base.{ℕ, Bool, [], ◌∷◌, ◌++◌, if◌then◌else◌, Text, codes, contains}

-- `std::string(".^$|()[]{}*+?\\").find(c) != npos`.
unfoldable pub is_special : ℕ → Bool
is_special c = contains (codes ".^$|()[]{}*+?\\") c

-- What is appended for one character.
unfoldable pub escape_char : ℕ → Text
unfolding is_special
escape_char c = if is_special c then b'\\' ∷ c ∷ [] else c ∷ []

unfoldable pub escape_regex_chars : Text → Text
unfolding escape_char
escape_regex_chars [] = []
escape_regex_chars (c ∷ text) = escape_char c ++ escape_regex_chars text
