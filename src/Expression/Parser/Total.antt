-- ===== src/Expression/Parser/Total.antt =====
-- The loop of `parse` ends, and reads outside the expression only for a slash in front.
use cucumber_cpp.Base.{
  ℕ, zero, suc, ◌+◌, ◌≤◌, ◌≡◌, inl, inr, [], ◌∷◌, lt→ltb, arith, length, ltb, ltb→lt, le→ltb,
  Bool-cases, Text,
}
use cucumber_cpp.Expression.Error.{Settles, returns, >>=-Settles, undefined, read_at}
use cucumber_cpp.Expression.Types.{TypeMap}
use cucumber_cpp.Expression.Parser.{
  Progress, starts_escape, parse_round, parse_from, parse, parse_alternatives, find_word_end,
  collect_before,
}
use cucumber_cpp.Expression.Parser.Rounds.{Reached, HasNoFrontSlash, parse_round-RoundEnds}

parse_from-Settles :
    (fuel : ℕ) (types : TypeMap) (e : Text) (p : Progress)
    → HasNoFrontSlash e
    → Reached p
    → length e ≤ p.pos + fuel
    → Settles (parse_from fuel types e p)
unfolding parse_from
parse_from-Settles zero types e p front r h =
    rw (le→ltb p.pos (length e) (omega arith)) (returns p.result)
parse_from-Settles (suc fuel) types e p front r h = elim (Bool-cases (ltb p.pos (length e))) [
  | inr out ↦ rw (out, parse_from) (returns p.result)
  | inl inside ↦
      let ends = parse_round-RoundEnds types e p r (ltb→lt p.pos (length e) inside) front in
      rw (inside, parse_from)
        (>>=-Settles (parse_round types e p) _ ends.settles λ q round.
          let a = ends.advances q round in
          parse_from-Settles fuel types e q front (λ _. a.built) (omega arith))
]

-- Unless a slash stands in front, `parse` ends in a regex or an exception.
pub parse-Settles : (types : TypeMap) (e : Text) → HasNoFrontSlash e → Settles (parse types e)
unfolding parse
parse-Settles types e front =
    parse_from-Settles (length e) types e (record { pos = 0; result = [] }) front
      (λ h. absurd (omega arith)) (omega arith)

-- A slash in front makes `parse` read outside the expression.
pub parse_front_slash : (types : TypeMap) (s : Text) → parse types (b'/' ∷ s) ≡ undefined
unfolding read_at starts_escape parse parse_from parse_round parse_alternatives find_word_end
    collect_before
parse_front_slash types s = rw (lt→ltb 0 (length (b'/' ∷ s)) (omega arith), parse_from)
