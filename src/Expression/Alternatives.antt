-- ===== src/Expression/Alternatives.antt =====
-- `collectAlternativesFromHere` and `parseAlternativeText`.
pub mod Loop
pub mod Total
pub mod Collect
pub mod Words
use cucumber_cpp.Base.{
  ℕ, zero, suc, ◌+◌, ◌-◌, Bool, true, false, not, ◌&&◌, ◌||◌, Option, none, some, List, [], ◌∷◌,
  ◌++◌, ltb, ◌==◌, if◌then◌else◌, length, is_empty, Text, codes, char_at, find_from, substr,
}
use cucumber_cpp.Expression.Error.{Result, ok, throw, no_fuel, ◌>>=◌, read_at, base_error}
use cucumber_cpp.Expression.Escape.{escape_char, escape_regex_chars}

-- A space or an opening brace ends the words on either side of a slash.
unfoldable pub is_boundary : ℕ → Bool
is_boundary c = c == b' ' || c == b'{'

-- The outer loop at index 0: whichever branch is taken, it is the last round.
unfoldable pub backtrack_end : Text → Text → Result Text
unfolding is_boundary read_at
backtrack_end expression current = do
  c ← read_at expression 0
  ok (if is_boundary c || c == b'(' then current else c ∷ current)

-- The backtracking loop, from index `i` down. A depth of 0 is the outer loop; a positive depth is
-- the inner loop, which copies a parenthesised group. An inner loop that meets index 0 goes on
-- with the outer loop at the same index.
unfoldable pub backtrack : Text → ℕ → ℕ → Text → Result Text
unfolding is_boundary backtrack_end read_at
backtrack expression zero zero current = backtrack_end expression current
backtrack expression zero (suc depth) current = do
  c ← read_at expression 0
  backtrack_end expression (c ∷ current)
backtrack expression (suc i) zero current = do
  c ← read_at expression (suc i)
  elim (is_boundary c || c == b'(') [
    | true ↦ ok current
    | false ↦ backtrack expression i (if c == b')' then 1 else 0) (c ∷ current)
  ]
backtrack expression (suc i) (suc depth) current = do
  c ← read_at expression (suc i)
  backtrack expression i
      (if c == b')' then suc (suc depth) else if c == b'(' then depth else suc depth) (c ∷ current)

-- The variables of the forward loop. `allWords` is written and never read: it is left out.
pub record Forward : Type 0 where
  pub pos : ℕ
  pub current : Text
  pub alternatives : List Text

-- `if (!current.empty()) { push_back; clear }`.
unfoldable pub flush : Forward → Forward
flush f =
    if is_empty f.current
    then f
    else record f { current = []; alternatives = f.alternatives ++ f.current ∷ [] }

-- At an opening parenthesis inside a word: the group up to the next `)` is copied.
unfoldable pub copy_group : Text → Forward → Option ℕ → Forward
copy_group expression f none = record f { pos = f.pos + 1; current = f.current ++ b'(' ∷ [] }
copy_group expression f (some paren_end) = record f {
  pos = paren_end + 1;
  current = f.current ++ substr expression f.pos (paren_end + 1 - f.pos);
}

-- An escaped slash.
unfoldable pub starts_slash : Text → Forward → ℕ → Result Bool
unfolding read_at
starts_slash expression f c =
    if c == b'\\' && ltb (f.pos + 1) (length expression)
    then (do next ← read_at expression (f.pos + 1); ok (next == b'/'))
    else ok false

-- One round of the forward loop, which reads a character, and the next one behind a backslash;
-- `none` is a `break`.
unfoldable pub forward_read : Text → Forward → ℕ → Bool → Option Forward
unfolding is_boundary flush copy_group
forward_read expression f c slash =
    if is_boundary c
    then none
    else if c == b'(' && is_empty f.current
    then none
    else if c == b'('
    then some (copy_group expression f (find_from b')' expression f.pos))
    else if slash
    then some (record f { pos = f.pos + 2 })
    else if c == b'/'
    then some (let g = flush f in record g { pos = f.pos + 1 })
    else some (record f { pos = f.pos + 1; current = f.current ++ c ∷ [] })

unfoldable pub forward_round : Text → Forward → Result (Option Forward)
unfolding forward_read starts_slash read_at
forward_round expression f = do
  c ← read_at expression f.pos
  slash ← starts_slash expression f c
  ok (forward_read expression f c slash)

unfoldable pub forward_from : ℕ → Text → Forward → Result Forward
unfolding forward_round
forward_from zero expression f = if ltb f.pos (length expression) then no_fuel else ok f
forward_from (suc fuel) expression f = elim (ltb f.pos (length expression)) [
  | false ↦ ok f
  | true ↦ do
    next ← forward_round expression f
    elim next [ none ↦ ok f | some g ↦ forward_from fuel expression g ]
]

-- The variables before the forward loop: the word before the slash is the first alternative.
unfoldable pub collect_start : Text → ℕ → Result Forward
unfolding backtrack flush
collect_start expression start_pos = do
  current ← backtrack expression start_pos 0 []
  ok (flush (record { pos = start_pos + 1; current = current; alternatives = [] }))

-- What `collectAlternativesFromHere(startPos)` leaves: the last word flushed, and the parser's new
-- position.
unfoldable pub collect_alternatives_from_here : Text → ℕ → Result Forward
unfolding collect_start forward_from flush
collect_alternatives_from_here expression start_pos = do
  start ← collect_start expression start_pos
  f ← forward_from (length expression) expression start
  ok (flush f)

-- A closed optional text inside an alternative: the new index and what is appended.
unfoldable pub optional_round : ℕ → Text → Result (ℕ × Text)
unfolding escape_regex_chars
optional_round close_pos content =
    if is_empty content
    then throw (base_error (codes "Empty optional text is not allowed"))
    else ok (close_pos + 1, codes "(?:" ++ (escape_regex_chars content ++ codes ")?"))

-- One round of `parseAlternativeText` at index `i`.
unfoldable pub alternative_read : Text → ℕ → ℕ → Result (ℕ × Text)
unfolding escape_char optional_round
alternative_read text i c =
    if c == b'('
    then elim (find_from b')' text i) [
      | none ↦ ok (i + 1, escape_char c)
      | some close_pos ↦ optional_round close_pos (substr text (i + 1) (close_pos - i - 1))
    ]
    else ok (i + 1, escape_char c)

unfoldable pub alternative_round : Text → ℕ → Result (ℕ × Text)
unfolding alternative_read read_at
alternative_round text i = do c ← read_at text i; alternative_read text i c

unfoldable pub alternative_from : ℕ → Text → ℕ → Text → Result Text
unfolding alternative_round
alternative_from zero text i result = if ltb i (length text) then no_fuel else ok result
alternative_from (suc fuel) text i result = elim (ltb i (length text)) [
  | false ↦ ok result
  | true ↦ do
    (i', piece) ← alternative_round text i
    alternative_from fuel text i' (result ++ piece)
]

unfoldable pub parse_alternative_text : Text → Result Text
unfolding alternative_from
parse_alternative_text text = alternative_from (length text) text 0 []
