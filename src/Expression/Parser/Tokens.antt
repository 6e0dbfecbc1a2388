-- ===== src/Expression/Parser/Tokens.antt =====
-- What `parse` gives for an expression without alternatives: the translation of its parts.
use cucumber_cpp.Base.{
  lookup, ℕ, zero, suc, ◌+◌, ◌-◌, ◌≤◌, ◌<◌, ◌≡◌, ap, ◌∙◌, true, false, ◌||◌, some, List, [], ◌∷◌,
  ◌++◌, append_assoc, arith, ltb, lt→ltb, le→ltb, ◌==◌, if◌then◌else◌, length, length-append,
  take-append, Text, codes, contains, find_from, find-append, find_from-append, drop_one-append,
  substr, take,
}
use cucumber_cpp.Expression.Error.{ok, read_at-append, read_at_one-append}
use cucumber_cpp.Expression.Types.{TypeMap}
use cucumber_cpp.Expression.Escape.{escape_char, escape_regex_chars}
use cucumber_cpp.Expression.Parser.{
  Progress, is_escapable, starts_escape, parse_escaping, parameter_group, parse_open_brace,
  optional_group, parse_open_parenthesis, parse_round, parse_from,
}

-- The parts of an expression: a character that stands for itself, an escaped character, a
-- parameter with its pattern, and an optional text by its first character and the others.
pub data Token : Type 0 where
  plain escaped : ℕ → Token
  parameter : Text → Text → Token
  optional : ℕ → Text → Token

-- How a part is written in an expression.
abbrev pub source : Token → Text
source (plain c) = c ∷ []
source (escaped c) = b'\\' ∷ c ∷ []
source (parameter name pattern) = b'{' ∷ (name ++ b'}' ∷ [])
source (optional c s) = b'(' ∷ c ∷ (s ++ b')' ∷ [])

-- The regex that a part stands for.
abbrev pub translate : Token → Text
translate (plain c) = escape_char c
translate (escaped c) = if c == b'/' then c ∷ [] else b'\\' ∷ c ∷ []
translate (parameter name pattern) = b'(' ∷ (pattern ++ b')' ∷ [])
translate (optional c s) = codes "(?:" ++ (escape_regex_chars (c ∷ s) ++ codes ")?")

-- The part is written with the characters that it may hold, and its type is known.
abbrev pub IsToken : TypeMap → Token → Type 0
IsToken types (plain c) = (c == b'{' || c == b'(' || c == b'/' || c == b'\\') ≡ false
IsToken types (escaped c) = is_escapable c ≡ true
IsToken types (parameter name pattern) =
    (contains name b'}' ≡ false) × (lookup name types ≡ some pattern)
IsToken types (optional c s) = contains (c ∷ s) b')' ≡ false

abbrev pub sources : List Token → Text
sources [] = []
sources (t ∷ ts) = source t ++ sources ts

abbrev pub translations : List Token → Text
translations [] = []
translations (t ∷ ts) = translate t ++ translations ts

abbrev pub at : Text → Text → Progress
at before r = record { pos = length before; result = r }

abbrev at_pos : ℕ → Text → Progress
at_pos n r = record { pos = n; result = r }

at_eq : {n : ℕ} (b r : Text) → n ≡ length b → at_pos n r ≡ at b r
at_eq b r e = λ i. at_pos (e i) r

escaped_piece :
    (c : ℕ)
    → is_escapable c ≡ true
    → (if c == b'{' || c == b'}' || c == b'(' || c == b')' then b'\\' ∷ c ∷ [] else c ∷ [])
      ≡ translate (escaped c)
unfolding is_escapable
escaped_piece c h = ground arith

-- The name between the brackets at a place.
substr-between :
    (before : Text) (c : ℕ) (name rest : Text)
    → substr
        (before ++ c ∷ (name ++ rest))
        (length before + 1)
        (length before + suc (length name) - length before - 1)
      ≡ name
substr-between before c name rest =
    rw drop_one-append (ap (λ n. take n (name ++ rest)) count ∙ take-append name rest)
  where
    count : length before + suc (length name) - length before - 1 ≡ length name
    count = omega arith

module _ (types : TypeMap) (before r rest : Text) where
  parse_open_brace-parameter :
      (name pattern : Text)
      → IsToken types (parameter name pattern)
      → parse_open_brace types (before ++ (b'{' ∷ (name ++ b'}' ∷ rest))) (at before r)
        ≡ ok (record {
          pos = length before + suc (length name) + 1;
          result = r ++ (b'(' ∷ (pattern ++ b')' ∷ []));
        })
  unfolding parse_open_brace parameter_group
  parse_open_brace-parameter name pattern (clean, known) =
      rw (found, parse_open_brace) (rw substr-between (rw (known, parameter_group)))
    where
      found :
          find_from b'}' (before ++ (b'{' ∷ (name ++ b'}' ∷ rest))) (length before)
          ≡ some (length before + suc (length name))
      found =
          find_from-append b'}' before (b'{' ∷ (name ++ b'}' ∷ rest))
            (find-append b'}' (b'{' ∷ name) rest clean)

  parse_open_parenthesis-optional :
      (c : ℕ) (s : Text)
      → IsToken types (optional c s)
      → parse_open_parenthesis (before ++ (b'(' ∷ c ∷ (s ++ b')' ∷ rest))) (at before r)
        ≡ ok (record {
          pos = length before + suc (length (c ∷ s)) + 1;
          result = r ++ translate (optional c s);
        })
  unfolding parse_open_parenthesis optional_group
  parse_open_parenthesis-optional c s clean =
      rw (found, parse_open_parenthesis) (rw (substr-between before b'(' (c ∷ s) (b')' ∷ rest)))
    where
      found :
          find_from b')' (before ++ (b'(' ∷ c ∷ (s ++ b')' ∷ rest))) (length before)
          ≡ some (length before + suc (length (c ∷ s)))
      found =
          find_from-append b')' before (b'(' ∷ c ∷ (s ++ b')' ∷ rest))
            (find-append b')' (b'(' ∷ c ∷ s) rest clean)

  parse_round-plain :
      (c : ℕ)
      → IsToken types (plain c)
      → parse_round types (before ++ c ∷ rest) (at before r)
        ≡ ok (record { pos = length before + 1; result = r ++ escape_char c })
  unfolding parse_round starts_escape
  parse_round-plain c h =
      let no_backslash : (c == b'\\') ≡ false = ground (arith, h) in
      rw (read_at-append, no_backslash) (ground (arith, h))

  parse_round-escaped :
      (c : ℕ)
      → IsToken types (escaped c)
      → parse_round types (before ++ b'\\' ∷ c ∷ rest) (at before r)
        ≡ ok (record { pos = length before + 2; result = r ++ translate (escaped c) })
  unfolding parse_round starts_escape parse_escaping
  parse_round-escaped c h =
      rw (read_at-append, read_at_one-append)
        (rw (h, inside)
          (ap (λ piece. ok (at_pos (length before + 2) (r ++ piece))) (escaped_piece c h)))
    where
      inside : ltb (length before + 1) (length (before ++ b'\\' ∷ c ∷ rest)) ≡ true
      inside = lt→ltb _ _ (omega (arith, length-append before (b'\\' ∷ c ∷ rest)))

  pub parse_round-token :
      (t : Token)
      → IsToken types t
      → parse_round types (before ++ (source t ++ rest)) (at before r)
        ≡ ok (at (before ++ source t) (r ++ translate t))
  unfolding parse_round starts_escape
  parse_round-token (plain c) h =
      parse_round-plain c h ∙ ap ok (at_eq _ _ (omega (arith, length-append before (c ∷ []))))
  parse_round-token (escaped c) h =
      parse_round-escaped c h
      ∙ ap ok (at_eq _ _ (omega (arith, length-append before (b'\\' ∷ c ∷ []))))
  parse_round-token (parameter name pattern) h =
      rw (append_assoc name (b'}' ∷ []) rest, read_at-append, parse_round)
        (parse_open_brace-parameter name pattern h ∙ ap ok (at_eq _ _ position))
    where
      position :
          length before + suc (length name) + 1 ≡ length (before ++ source (parameter name pattern))
      position = omega (
        arith,
        length-append before (source (parameter name pattern)),
        length-append name (b'}' ∷ []),
      )
  parse_round-token (optional c s) h =
      rw (append_assoc s (b')' ∷ []) rest, read_at-append, parse_round)
        (parse_open_parenthesis-optional c s h ∙ ap ok (at_eq _ _ position))
    where
      position : length before + suc (length (c ∷ s)) + 1 ≡ length (before ++ source (optional c s))
      position =
          omega (arith, length-append before (source (optional c s)), length-append s (b')' ∷ []))

pub parse_from_end :
    (fuel : ℕ) (types : TypeMap) (e : Text) (p : Progress)
    → length e ≤ p.pos
    → parse_from fuel types e p ≡ ok p.result
unfolding parse_from
parse_from_end zero types e p h = rw (le→ltb p.pos (length e) h)
parse_from_end (suc fuel) types e p h = rw (le→ltb p.pos (length e) h, parse_from)

pub source_pos : (t : Token) → 0 < length (source t)
source_pos (plain c) = omega arith
source_pos _ = omega arith
