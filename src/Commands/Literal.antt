-- ===== src/Commands/Literal.antt =====
-- The snippet as the compiler and the matcher read it.
use cucumber_cpp.Base.{
  ℕ, ◌≡◌, ◌∙◌, refl, ap, true, false, some, [], ◌∷◌, ◌++◌, ◌==◌, ◌||◌, All, arith, if◌then◌else◌,
  if_cases, Text,
}
use mathlib.Core.Option
use cucumber_cpp.Expression.Escape.{is_special, escape_char, escape_regex_chars}
use cucumber_cpp.Commands.Snippet.{
  backslash_before, is_regex_class, escape_regex, is_string_class, escape_c_string, prepend,
  read_c_string,
}

not_special : (c : ℕ) → is_string_class c ≡ false → ((c == b'\\') ≡ false) × ((c == b'"') ≡ false)
unfolding is_string_class
not_special c h = ground (arith, h)

-- A character that needs no escape is read as it stands.
read_plain :
    (c : ℕ) (s t : Text)
    → is_string_class c ≡ false
    → (c == b'\n') ≡ false
    → (r : Text) → read_c_string s ≡ some (r, t)
    → read_c_string (c ∷ s) ≡ some (c ∷ r, t)
unfolding is_string_class
read_plain c [] t plain line r h = absurd cc
read_plain c (d ∷ s) t plain line r h =
    let (a, b) = not_special c plain in rw (a, b, line) (ap (Option.map (prepend c)) h)

read_special :
    (c : ℕ) (s t : Text)
    → is_string_class c ≡ true
    → (r : Text) → read_c_string s ≡ some (r, t)
    → read_c_string (b'\\' ∷ c ∷ s) ≡ some (c ∷ r, t)
unfolding is_string_class
read_special c s t special r h =
    let accepted : (c == b'\\' || c == b'"') ≡ true = ground (arith, special) in
    rw accepted (ap (Option.map (prepend c)) h)

-- A text of one line, which is escaped for a snippet, is read back by the compiler, up to the
-- closing quote.
pub read_c_string-escape_c_string :
    (s t : Text)
    → All (λ c. (c == b'\n') ≡ false) s
    → read_c_string (escape_c_string s ++ b'"' ∷ t) ≡ some (s, t)
unfolding escape_c_string
read_c_string-escape_c_string [] [] line = refl
read_c_string-escape_c_string [] (d ∷ t) line = refl
read_c_string-escape_c_string (c ∷ s) t (here, line) =
    let rest = read_c_string-escape_c_string s t line in
    if_cases (λ x. read_c_string (x ++ b'"' ∷ t) ≡ some (c ∷ s, t)) (is_string_class c)
      (λ h. read_special c (escape_c_string s ++ b'"' ∷ t) t h s rest)
      (λ h. read_plain c _ t h here s rest)

is_regex_class-is_special : (c : ℕ) → is_regex_class c ≡ is_special c
unfolding is_regex_class is_special
is_regex_class-is_special c = ground arith

-- The snippets and the Cucumber expressions escape the special characters of a regex alike.
pub escape_regex-escape_regex_chars : (s : Text) → escape_regex s ≡ escape_regex_chars s
unfolding escape_regex escape_regex_chars escape_char
escape_regex-escape_regex_chars [] = refl
escape_regex-escape_regex_chars (c ∷ s) =
    if_cases
      (λ x.
        (if is_regex_class c
          then b'\\' ∷ c ∷ backslash_before is_regex_class s
          else c ∷ backslash_before is_regex_class s)
        ≡ x ++ escape_regex_chars s)
      (is_special c)
      (λ h. rw (is_regex_class-is_special c ∙ h, escape_regex-escape_regex_chars s) refl)
      (λ h. rw (is_regex_class-is_special c ∙ h, escape_regex-escape_regex_chars s) refl)
