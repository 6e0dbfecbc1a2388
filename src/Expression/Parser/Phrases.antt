-- ===== src/Expression/Parser/Phrases.antt =====
-- What `parse` gives for a whole expression: parts and choices between words, joined by spaces.
use native.Mathlib.Nat.{add_assoc}
use cucumber_cpp.Base.{
  ◌≡◌, refl, List, [], ◌∷◌, ◌++◌, append-nil, append_assoc, arith, length, length-append, Text, All,
}
use cucumber_cpp.Expression.Error.{ok}
use cucumber_cpp.Expression.Types.{TypeMap}
use cucumber_cpp.Expression.Escape.{escape_char}
use cucumber_cpp.Expression.Alternatives.Words.{
  Word, letters, IsWord, EndsWords, at_end, at_space, StartsWords, at_start, behind_space,
}
use cucumber_cpp.Expression.Alternatives.Loop.{slashed}
use cucumber_cpp.Expression.Parser.{parse}
use cucumber_cpp.Expression.Parser.Tokens.{
  Token, plain, IsToken, sources, translations, parse_from_end, at,
}
use cucumber_cpp.Expression.Parser.Choices.{choice_regex}
use cucumber_cpp.Expression.Parser.Runs.{Parses, Parses-tokens, Parses-choice}

-- What stands between two spaces: parts, or a choice between at least two words.
pub data Segment : Type 0 where
  parts : List Token → Segment
  choice : Word → Word → List Word → Segment

abbrev pub source_of : Segment → Text
source_of (parts ts) = sources ts
source_of (choice w v vs) = letters w ++ slashed (v ∷ vs)

abbrev pub regex_of : Segment → Text
regex_of (parts ts) = translations ts
regex_of (choice w v vs) = choice_regex w (v ∷ vs)

abbrev pub IsSegment : TypeMap → Segment → Type 0
IsSegment types (parts ts) = All (IsToken types) ts
IsSegment types (choice w v vs) = IsWord w × All IsWord (v ∷ vs)

-- Segments joined by single spaces.
abbrev pub spaced : (Segment → Text) → Segment → List Segment → Text
spaced f s [] = f s
spaced f s (t ∷ ss) = f s ++ b' ' ∷ spaced f t ss

Parses-segment :
    {types : TypeMap} {before r post regex : Text}
    → StartsWords before
    → StartsWords r
    → EndsWords post
    → (s : Segment) → IsSegment types s
    → Parses types
        (before ++ (source_of s ++ post))
        (at (before ++ source_of s) (r ++ regex_of s))
        regex
    → Parses types (before ++ (source_of s ++ post)) (at before r) regex
Parses-segment {types} {before} {r} {post} start built stop (parts ts) h rest =
    Parses-tokens ts before post r h rest
Parses-segment {types} {before} {r} {post} {regex} start built stop (choice w v vs) h rest =
    rw (append_assoc (letters w) (slashed (v ∷ vs)) post) (
      Parses-choice start built stop w v vs h.0 h.1 (
        rw
          (
            append_assoc (letters w) (slashed (v ∷ vs)) post,
            length-append before (letters w ++ slashed (v ∷ vs)),
            length-append (letters w) (slashed (v ∷ vs)),
            ← add_assoc,
          )
          at rest))

Parses-end : (types : TypeMap) (e r : Text) → Parses types e (at e r) r
Parses-end types e r = record {
  run = λ fuel enough. parse_from_end fuel types e (at e r) (omega arith);
}

escape_char_space : escape_char b' ' ≡ b' ' ∷ []
unfolding escape_char
escape_char_space = refl

Parses-spaced :
    (types : TypeMap) (ss : List Segment) {before r : Text}
    → StartsWords before
    → StartsWords r
    → (s : Segment) → All (IsSegment types) (s ∷ ss)
    → Parses types (before ++ spaced source_of s ss) (at before r) (r ++ spaced regex_of s ss)
Parses-spaced types [] {before} {r} start built s (h, hs) = rw (append-nil (source_of s)) at (
    Parses-segment {regex = r ++ regex_of s} start built at_end s h
      (rw (append-nil (source_of s)) (Parses-end types (before ++ source_of s) (r ++ regex_of s))))
Parses-spaced types (t ∷ ss) {before} {r} start built s (h, hs) =
    let b : Text = (before ++ source_of s) ++ b' ' ∷ [] in
    let ih : Parses types (b ++ spaced source_of t ss) (at b ((r ++ regex_of s) ++ b' ' ∷ []))
        (((r ++ regex_of s) ++ b' ' ∷ []) ++ spaced regex_of t ss) =
      Parses-spaced types ss (behind_space (before ++ source_of s)) (behind_space (r ++ regex_of s))
        t hs in
    Parses-segment start built (at_space (spaced source_of t ss)) s h (
      rw (← append_assoc before (source_of s) (b' ' ∷ spaced source_of t ss)) (
        Parses-tokens (plain b' ' ∷ []) (before ++ source_of s) (spaced source_of t ss)
          (r ++ regex_of s) (refl, tt)
          (rw escape_char_space (
            rw
              (
                append_assoc (before ++ source_of s) (b' ' ∷ []) (spaced source_of t ss),
                append_assoc (r ++ regex_of s) (b' ' ∷ []) (spaced regex_of t ss),
                append_assoc r (regex_of s) (b' ' ∷ spaced regex_of t ss),
              )
              at ih))))

pub parse-spaced :
    (types : TypeMap) (s : Segment) (ss : List Segment)
    → All (IsSegment types) (s ∷ ss)
    → parse types (spaced source_of s ss) ≡ ok (spaced regex_of s ss)
unfolding parse
parse-spaced types s ss h =
    (Parses-spaced types ss at_start at_start s h).run (length (spaced source_of s ss))
      (omega arith)

-- An expression that is written from parts is parsed to the translations of its parts, in order.
pub parse-sources :
    (types : TypeMap) (ts : List Token)
    → All (IsToken types) ts
    → parse types (sources ts) ≡ ok (translations ts)
parse-sources types ts h = parse-spaced types (parts ts) [] (h, tt)
