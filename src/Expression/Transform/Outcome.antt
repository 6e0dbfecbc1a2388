-- ===== src/Expression/Transform/Outcome.antt =====
-- When `cukex::transform` returns, what it returns, and which exceptions it throws.
use cucumber_cpp.Base.{
  ◌≡◌, refl, ◌⊎◌, inl, inr, Option, none, some, [], ◌∷◌, ◌++◌, Text, c_str, codes,
}
use cucumber_cpp.Expression.Error.{
  base_error, Exception, Result, ok, throw, undefined, no_fuel, >>=-eq-throw,
  empty_expression_error, Settles, returns, raises, >>=-Settles,
}
use cucumber_cpp.Expression.Types.{TypeMap}
use cucumber_cpp.Expression.Validate.{Depths, validate}
use cucumber_cpp.Expression.Validate.Total.{validate-Settles, IsThrown, validate-IsThrown}
use cucumber_cpp.Expression.Parser.{parse}
use cucumber_cpp.Expression.Parser.Rounds.{HasNoFrontSlash}
use cucumber_cpp.Expression.Parser.Total.{parse-Settles, parse_front_slash}
use cucumber_cpp.Expression.Transform.{
  validate_regex, rethrow_invalid, anchored, parse_and_check, transform,
}

rethrow_invalid-Settles : (m : Result Text) → Settles m → Settles (rethrow_invalid m)
rethrow_invalid-Settles m (returns r) = returns r
rethrow_invalid-Settles m (raises e) = raises _

validate_regex-Settles :
    (regex_error : Text → Option Text) (r : Text) → Settles (validate_regex regex_error r)
unfolding validate_regex
validate_regex-Settles regex_error r = go (regex_error r) refl
  where
    go : (o : Option Text) → regex_error r ≡ o → Settles (validate_regex regex_error r)
    go none e = rw (e, validate_regex) (returns r)
    go (some w) e = rw (e, validate_regex) (raises _)

rethrow_invalid-eq-throw :
    (m : Result Text) {x : Exception}
    → rethrow_invalid m ≡ throw x
    → (y : Exception) × (m ≡ throw y)
      × (x ≡ base_error (codes "Invalid Cucumber expression: " ++ c_str y.what))
rethrow_invalid-eq-throw (ok r) h = cc
rethrow_invalid-eq-throw (throw y) h = (y, refl, cc)
rethrow_invalid-eq-throw undefined h = cc
rethrow_invalid-eq-throw no_fuel h = cc

module _ (regex_error : Text → Option Text) (types : TypeMap) where
  parse_and_check-Settles :
      (e : Text) → HasNoFrontSlash e → Settles (parse_and_check regex_error types e)
  unfolding parse_and_check
  parse_and_check-Settles e front =
      >>=-Settles (parse types e) _ (parse-Settles types e front)
        λ r _. validate_regex-Settles regex_error (anchored r)

  -- Unless a slash stands in front of the expression, `transform` ends, in a regex or an
  -- exception: no loop goes on for ever, and no string is read beyond the NUL behind its last
  -- character or before its start.
  pub transform-Settles :
      (expression : Text)
      → HasNoFrontSlash expression
      → Settles (transform regex_error types expression)
  unfolding transform
  transform-Settles [] front = raises _
  transform-Settles (c ∷ s) front =
      >>=-Settles (validate (c ∷ s)) _ (validate-Settles (c ∷ s))
        λ _ _. rethrow_invalid-Settles _ (parse_and_check-Settles (c ∷ s) front)

  -- On an expression that passes validation and begins with a slash, the code reads before the
  -- start of the string.
  pub transform_front_slash :
      (s : Text) (d : Depths)
      → validate (b'/' ∷ s) ≡ ok d
      → transform regex_error types (b'/' ∷ s) ≡ undefined
  unfolding transform parse_and_check
  transform_front_slash s d valid = rw (valid, transform) (rw (parse_front_slash types s))

  -- What reaches the caller: the exception for an empty expression; or an exception of validation,
  -- as it was thrown; or an exception of the parser or of the regex check, thrown anew as the base
  -- class with its message behind a prefix.
  transform-eq-throw :
      (expression : Text) {x : Exception}
      → transform regex_error types expression ≡ throw x
      → ((expression ≡ []) × (x ≡ empty_expression_error))
        ⊎ (validate expression ≡ throw x)
        ⊎ ((y : Exception) × (parse_and_check regex_error types expression ≡ throw y)
            × (x ≡ base_error (codes "Invalid Cucumber expression: " ++ c_str y.what)))
  unfolding transform
  transform-eq-throw [] h = inl (refl, cc)
  transform-eq-throw (c ∷ s) h = elim (>>=-eq-throw (validate (c ∷ s)) _ h) [
    | inl e ↦ inr (inl e)
    | inr (d, valid, rest) ↦
        inr (inr (rethrow_invalid-eq-throw (parse_and_check regex_error types (c ∷ s)) rest))
  ]

  -- No exception of the classes for unknown types, optional texts and alternatives reaches a
  -- caller of `transform`.
  pub transform-IsThrown :
      (expression : Text) {x : Exception}
      → transform regex_error types expression ≡ throw x
      → IsThrown x.kind
  transform-IsThrown expression h = elim (transform-eq-throw expression h) [
    | inl (_, e) ↦ rw e tt
    | inr (inl e) ↦ validate-IsThrown expression e
    | inr (inr (y, _, e)) ↦ rw e tt
  ]
