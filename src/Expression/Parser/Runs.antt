-- ===== src/Expression/Parser/Runs.antt =====
-- Runs of the loop of `parse` over parts, letters and choices, with a text behind them.
use cucumber_cpp.Base.{
  ℕ, zero, suc, ◌+◌, ◌≤◌, ◌<◌, ◌≡◌, refl, ap, true, false, ◌||◌, List, [], ◌∷◌, ◌++◌, append-nil,
  append_assoc, arith, lt→ltb, ◌==◌, length, length-append, Text, All,
}
use cucumber_cpp.Expression.Error.{ok}
use cucumber_cpp.Expression.Types.{TypeMap}
use cucumber_cpp.Expression.Escape.{escape_char, escape_regex_chars}
use cucumber_cpp.Expression.Alternatives.Words.{
  is_letter, AllLetters, Word, letters, IsWord, EndsWords, StartsWords,
}
use cucumber_cpp.Expression.Alternatives.Loop.{slashed}
use cucumber_cpp.Expression.Parser.{Progress, parse_round, parse_from}
use cucumber_cpp.Expression.Parser.Tokens.{
  Token, plain, source, translate, IsToken, sources, translations, parse_round-token, source_pos,
  at,
}
use cucumber_cpp.Expression.Parser.Choices.{
  chosen_text, first_word_end, choice_regex, parse_round-words,
}

-- With fuel enough, the loop gives a regex.
pub record Parses (types : TypeMap) (e : Text) (p : Progress) (regex : Text) : Type 0 where
  pub run : (fuel : ℕ) → length e ≤ p.pos + fuel → parse_from fuel types e p ≡ ok regex

Parses-round :
    {types : TypeMap} {e regex : Text} {p q : Progress}
    → p.pos < length e
    → p.pos < q.pos
    → parse_round types e p ≡ ok q
    → Parses types e q regex
    → Parses types e p regex
unfolding parse_from
Parses-round {types} {e} {regex} {p} {q} inside moved round rest = record { run = go }
  where
    go : (fuel : ℕ) → length e ≤ p.pos + fuel → parse_from fuel types e p ≡ ok regex
    go zero enough = absurd (omega arith)
    go (suc fuel) enough =
        rw (lt→ltb p.pos (length e) inside, round, parse_from) (rest.run fuel (omega arith))

-- Parts with a text behind them.
pub Parses-tokens :
    {types : TypeMap} {regex : Text}
    → (ts : List Token) (before post r : Text) → All (IsToken types) ts
    → Parses types
        (before ++ (sources ts ++ post))
        (at (before ++ sources ts) (r ++ translations ts))
        regex
    → Parses types (before ++ (sources ts ++ post)) (at before r) regex
Parses-tokens [] before post r h rest = rw (append-nil before, append-nil r) at rest
Parses-tokens {types} {regex} (t ∷ ts) before post r h rest =
    let ih : Parses types ((before ++ source t) ++ (sources ts ++ post))
        (at (before ++ source t) (r ++ translate t)) regex =
      Parses-tokens ts (before ++ source t) post (r ++ translate t) h.1 (
        rw
          (
            append_assoc before (source t) (sources ts ++ post),
            append_assoc before (source t) (sources ts),
            append_assoc r (translate t) (translations ts),
          )
          (rw (append_assoc (source t) (sources ts) post) at rest)) in
    rw (append_assoc (source t) (sources ts) post) (
      Parses-round
        (omega (
          arith,
          length-append before (source t ++ (sources ts ++ post)),
          length-append (source t) (sources ts ++ post),
          source_pos t,
        ))
        (omega (arith, length-append before (source t), source_pos t))
        (parse_round-token types before r (sources ts ++ post) t h.0)
        (rw (append_assoc before (source t) (sources ts ++ post)) at ih))

-- The letters of a word, as parts.
abbrev letter_tokens : Text → List Token
letter_tokens [] = []
letter_tokens (c ∷ u) = plain c ∷ letter_tokens u

sources-letters : (u : Text) → sources (letter_tokens u) ≡ u
sources-letters [] = refl
sources-letters (c ∷ u) = ap (◌∷◌ c) (sources-letters u)

translations-letters : (u : Text) → translations (letter_tokens u) ≡ escape_regex_chars u
unfolding escape_regex_chars
translations-letters [] = refl
translations-letters (c ∷ u) = ap (escape_char c ++◌) (translations-letters u)

IsToken-letters :
    (types : TypeMap) (u : Text) → AllLetters u → All (IsToken types) (letter_tokens u)
IsToken-letters types [] a = tt
IsToken-letters types (c ∷ u) a = (is_plain c a.0, IsToken-letters types u a.1)
  where
    is_plain :
        (c : ℕ) → is_letter c ≡ true → (c == b'{' || c == b'(' || c == b'/' || c == b'\\') ≡ false
    is_plain c h = ground (arith, h)

Parses-letters :
    {types : TypeMap} {regex : Text}
    → (u before post r : Text) → AllLetters u
    → Parses types
        (before ++ (u ++ post))
        (record { pos = length before + length u; result = r ++ escape_regex_chars u })
        regex
    → Parses types (before ++ (u ++ post)) (at before r) regex
Parses-letters {types} {regex} u before post r a rest =
    let p : Parses types (before ++ (sources (letter_tokens u) ++ post)) (at before r) regex =
      Parses-tokens (letter_tokens u) before post r (IsToken-letters types u a)
        (rw (sources-letters u, translations-letters u, length-append before u) rest) in
    rw (sources-letters u) at p

-- A choice with a text behind it that starts with a space, if there is one.
pub Parses-choice :
    {types : TypeMap} {before r post regex : Text}
    → StartsWords before
    → StartsWords r
    → EndsWords post
    → (w v : Word) (vs : List Word) → IsWord w
    → All IsWord (v ∷ vs)
    → Parses types
        (chosen_text before w (v ∷ vs) post)
        (record {
          pos = first_word_end before w + length (slashed (v ∷ vs));
          result = r ++ choice_regex w (v ∷ vs);
        })
        regex
    → Parses types (chosen_text before w (v ∷ vs) post) (at before r) regex
Parses-choice {types} {before} {r} {post} start built stop w v vs a b rest =
    Parses-letters (letters w) before (slashed (v ∷ vs) ++ post) r a (
      Parses-round
        (omega (
          arith,
          length-append before (letters w ++ (slashed (v ∷ vs) ++ post)),
          length-append (letters w) (slashed (v ∷ vs) ++ post),
        ))
        (omega arith) (parse_round-words types start built stop w v vs a b) rest)
