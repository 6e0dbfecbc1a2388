-- ===== src/Expression/Validate/Total.antt =====
-- Validation returns on every expression, and throws four kinds of exception.
use cucumber_cpp.Base.{
  ℕ, ◌+◌, ◌≡◌, inl, inr, Bool, true, false, [], ◌∷◌, arith, ltb, ◌==◌, if_cases, Text,
}
use cucumber_cpp.Expression.Error.{
  Kind, base_exception, unclosed_parameter, unclosed_optional, unmatched_closing_brace,
  unmatched_closing_parenthesis, empty_expression, Exception, throw, >>=-eq-throw, Settles, returns,
  raises, >>=-Settles,
}
use cucumber_cpp.Expression.Validate.{
  Depths, validate_char, validate_round, validate_end, validate_from, validate,
}

pub validate_char-Settles : (c : ℕ) (d : Depths) → Settles (validate_char c d)
unfolding validate_char
validate_char-Settles c d =
    if_cases Settles (c == b'{')
      (λ _. if_cases Settles (ltb 1 (d.brace + 1)) (λ _. raises _) (λ _. returns _))
      λ _.
        if_cases Settles (c == b'}')
          (λ _. if_cases Settles (d.brace == 0) (λ _. raises _) (λ _. returns _))
          λ _.
            if_cases Settles (c == b'(') (λ _. returns _)
              λ _.
                if_cases Settles (c == b')')
                  (λ _. if_cases Settles (d.paren == 0) (λ _. raises _) (λ _. returns _))
                  (λ _. returns d)

validate_round-Settles :
    (escaped : Bool) (c : ℕ) (d : Depths) → Settles (validate_round escaped c d)
unfolding validate_round
validate_round-Settles true c d = returns d
validate_round-Settles false c d = validate_char-Settles c d

validate_end-Settles : (d : Depths) → Settles (validate_end d)
unfolding validate_end
validate_end-Settles d =
    if_cases Settles (d.brace == 0)
      (λ _. if_cases Settles (d.paren == 0) (λ _. returns d) (λ _. raises _)) (λ _. raises _)

validate_from-Settles :
    (escaped : Bool) (s : Text) (d : Depths) → Settles (validate_from escaped s d)
unfolding validate_from
validate_from-Settles escaped [] d = validate_end-Settles d
validate_from-Settles escaped (c ∷ s) d =
    >>=-Settles (validate_round escaped c d) _ (validate_round-Settles escaped c d)
      λ d' _. validate_from-Settles (c == b'\\') s d'

-- Validation ends in a value or an exception.
pub validate-Settles : (expression : Text) → Settles (validate expression)
unfolding validate
validate-Settles expression = validate_from-Settles false expression _

-- The classes of the exceptions that reach the caller of `transform`.
abbrev pub IsThrown : Kind → Type 0
IsThrown base_exception = Unit
IsThrown unclosed_parameter = Unit
IsThrown unclosed_optional = Unit
IsThrown unmatched_closing_brace = Unit
IsThrown unmatched_closing_parenthesis = Unit
IsThrown empty_expression = Unit
IsThrown _ = ⊥

validate_round-IsThrown :
    (escaped : Bool) (c : ℕ) (d : Depths) {x : Exception}
    → validate_round escaped c d ≡ throw x
    → IsThrown x.kind
unfolding validate_round
validate_round-IsThrown escaped c d h = ground arith

validate_from-IsThrown :
    (escaped : Bool) (s : Text) (d : Depths) {x : Exception}
    → validate_from escaped s d ≡ throw x
    → IsThrown x.kind
unfolding validate_from
validate_from-IsThrown escaped [] d h = unfold validate_end in ground arith
validate_from-IsThrown escaped (c ∷ s) d h = elim (>>=-eq-throw (validate_round escaped c d) _ h) [
  | inl e ↦ validate_round-IsThrown escaped c d e
  | inr (d', round, rest) ↦ validate_from-IsThrown (c == b'\\') s d' rest
]

pub validate-IsThrown :
    (expression : Text) {x : Exception} → validate expression ≡ throw x → IsThrown x.kind
unfolding validate
validate-IsThrown expression = validate_from-IsThrown false expression _
