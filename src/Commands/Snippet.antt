-- ===== src/Commands/Snippet.antt =====
-- `snippetText`: the text of a step definition for a step that has none.
use cucumber_cpp.Base.{
  ℕ, ◌-◌, Bool, ◌&&◌, ◌||◌, Option, none, some, [], ◌∷◌, ◌++◌, map, leb, ◌==◌, if◌then◌else◌, Text,
  codes, contains, equal,
}
use mathlib.Core.Option

-- `toupper` in the C locale.
unfoldable pub to_upper : ℕ → ℕ
to_upper c = if leb b'a' c && leb c b'z' then c - 32 else c

-- `regex_replace` with a character class: a backslash before each of its characters.
abbrev pub backslash_before : (ℕ → Bool) → Text → Text
backslash_before class [] = []
backslash_before class (c ∷ s) =
    let rest = backslash_before class s in if class c then b'\\' ∷ c ∷ rest else c ∷ rest

-- `[\|\(\)\[\]\{\}\^\$\*\+\?\.\\]`.
unfoldable pub is_regex_class : ℕ → Bool
is_regex_class c = contains (codes "|()[]{}^$*+?.\\") c

unfoldable pub escape_regex : Text → Text
unfolding is_regex_class
escape_regex = backslash_before is_regex_class

-- `["\\]`.
unfoldable pub is_string_class : ℕ → Bool
is_string_class c = contains (codes "\"\\") c

unfoldable pub escape_c_string : Text → Text
unfolding is_string_class
escape_c_string = backslash_before is_string_class

unfoldable pub multiline_arg_comment : Text → Text
multiline_arg_comment multiline_arg_class =
    if equal multiline_arg_class (codes "DataTable")
    then codes "    TABLE_PARAM(data_table);\n"
    else if equal multiline_arg_class (codes "DocString")
    then codes "    REGEX_PARAM(std::string, doc_string);\n"
    else []

unfoldable pub snippet_text : Text → Text → Text → Text
unfolding to_upper escape_regex escape_c_string multiline_arg_comment
snippet_text step_keyword step_name multiline_arg_class =
    map to_upper step_keyword
    ++ (codes "(\""
        ++ (escape_c_string (b'^' ∷ (escape_regex step_name ++ b'$' ∷ []))
            ++ (codes "\") {\n"
                ++ (multiline_arg_comment multiline_arg_class
                    ++ (codes "    pending();\n" ++ codes "}\n")))))

abbrev pub prepend : ℕ → Text × Text → Text × Text
prepend c (s, t) = (c ∷ s, t)

-- A C string literal read by the compiler, from behind its opening quote: the text up to the
-- closing quote, and what follows. A backslash escapes a quote or a backslash; other escapes are
-- left out. A literal holds no newline.
abbrev pub read_c_string : Text → Option (Text × Text)
read_c_string [] = none
read_c_string (c ∷ []) = if c == b'"' then some ([], []) else none
read_c_string (c ∷ d ∷ s) =
    let escaped = Option.map (prepend d) (read_c_string s) in
    let plain = Option.map (prepend c) (read_c_string (d ∷ s)) in
    if c == b'\\'
    then if d == b'\\' || d == b'"' then escaped else none
    else if c == b'"'
    then some ([], d ∷ s)
    else if c == b'\n'
    then none
    else plain
