-- ===== src/Expression/Validate/Balance.antt =====
-- What validation accepts, described by counts: the characters that do not follow a backslash are
-- balanced.
use cucumber_cpp.Base.{
  ℕ, zero, suc, ◌+◌, ◌≤◌, ◌≡◌, refl, ap, ◌↔◌, ◌≢◌, take, Bool, true, false, [], ◌∷◌, arith, ◌==◌,
  if◌then◌else◌, Text,
}
use cucumber_cpp.Expression.Error.{
  Exception, Settles, returns, raises, Result, ok, throw, ◌>>=◌, >>=-eq-ok,
}
use cucumber_cpp.Expression.Validate.Total.{validate_char-Settles}
use cucumber_cpp.Expression.Validate.{
  Depths, validate_char, validate_round, validate_end, validate_from, validate,
}

-- The characters that do not follow a backslash; the flag says whether the first one does.
abbrev pub unescaped : Bool → Text → Text
unescaped escaped [] = []
unescaped true (c ∷ s) = unescaped (c == b'\\') s
unescaped false (c ∷ s) = c ∷ unescaped (c == b'\\') s

abbrev pub count : ℕ → Text → ℕ
count c [] = 0
count c (x ∷ s) = (if x == c then 1 else 0) + count c s

-- Behind a prefix, no bracket is closed that was not opened, and at most one brace is open.
pub record WithinDepths (d : Depths) (prefix : Text) : Type 0 where
  pub brace_opened : count b'}' prefix ≤ d.brace + count b'{' prefix
  pub brace_single : d.brace + count b'{' prefix ≤ count b'}' prefix + 1
  pub paren_opened : count b')' prefix ≤ d.paren + count b'(' prefix

-- At the end of a text, every bracket is closed.
pub record Closes (d : Depths) (s : Text) : Type 0 where
  pub braces_closed : d.brace + count b'{' s ≡ count b'}' s
  pub parens_closed : d.paren + count b'(' s ≡ count b')' s

abbrev pub BalancedFrom : Depths → Text → Type 0
BalancedFrom d s = ((n : ℕ) → WithinDepths d (take n s)) × Closes d s

abbrev pub no_depths : Depths
no_depths = record { brace = 0; paren = 0 }

-- The unescaped characters of an expression are balanced.
abbrev pub IsBalanced : Text → Type 0
IsBalanced expression = BalancedFrom no_depths (unescaped false expression)

validate_plain : Text → Depths → Result Depths
validate_plain [] d = validate_end d
validate_plain (c ∷ s) d = do d' ← validate_char c d; validate_plain s d'

validate_from-unescaped :
    (escaped : Bool) (s : Text) (d : Depths)
    → validate_from escaped s d ≡ validate_plain (unescaped escaped s) d
unfolding validate_from validate_plain validate_round
validate_from-unescaped escaped [] d = refl
validate_from-unescaped true (c ∷ s) d = validate_from-unescaped (c == b'\\') s d
validate_from-unescaped false (c ∷ s) d =
    ap (◌>>=◌ (validate_char c d)) (λ i d'. validate_from-unescaped (c == b'\\') s d' i)

validate_char-WithinDepths :
    (c : ℕ) (d d' : Depths) (prefix : Text)
    → d.brace ≤ 1
    → validate_char c d ≡ ok d'
    → WithinDepths d' prefix
    → WithinDepths d (c ∷ prefix)
unfolding validate_char
validate_char-WithinDepths c d d' prefix b h w = ground arith

validate_char-brace :
    (c : ℕ) (d d' : Depths) → d.brace ≤ 1 → validate_char c d ≡ ok d' → d'.brace ≤ 1
unfolding validate_char
validate_char-brace c d d' b h = ground arith

validate_char-Closes :
    (c : ℕ) (d d' : Depths) (s : Text) → validate_char c d ≡ ok d' → Closes d' s → Closes d (c ∷ s)
unfolding validate_char
validate_char-Closes c d d' s h w = ground arith

BalancedFrom-cons :
    (c : ℕ) (d d' : Depths) (s : Text)
    → d.brace ≤ 1
    → validate_char c d ≡ ok d'
    → BalancedFrom d' s
    → BalancedFrom d (c ∷ s)
BalancedFrom-cons c d d' s b h (within, closes) = (each, validate_char-Closes c d d' s h closes)
  where
    each : (n : ℕ) → WithinDepths d (take n (c ∷ s))
    each zero = omega arith
    each (suc n) = validate_char-WithinDepths c d d' (take n s) b h (within n)

BalancedFrom-nil : (d : Depths) → d.brace ≤ 1 → Closes d [] → BalancedFrom d []
BalancedFrom-nil d b closes = (each, closes)
  where
    each : (n : ℕ) → WithinDepths d (take n [])
    each zero = omega arith
    each (suc n) = omega arith

validate_plain-BalancedFrom :
    (s : Text) (d r : Depths) → d.brace ≤ 1 → validate_plain s d ≡ ok r → BalancedFrom d s
unfolding validate_plain
validate_plain-BalancedFrom [] d r b h = BalancedFrom-nil d b (unfold validate_end in ground arith)
validate_plain-BalancedFrom (c ∷ s) d r b h =
    let (d', char, rest) = >>=-eq-ok (validate_char c d) (validate_plain s) h in
    BalancedFrom-cons c d d' s b char
      (validate_plain-BalancedFrom s d' r (validate_char-brace c d d' b char) rest)

validate_char-ne-throw :
    (c : ℕ) (d : Depths) (x : Exception) → WithinDepths d (c ∷ []) → validate_char c d ≢ throw x
unfolding validate_char
validate_char-ne-throw c d x w h = ground arith

validate_char-later :
    (c : ℕ) (d d' : Depths) (prefix : Text)
    → validate_char c d ≡ ok d'
    → WithinDepths d (c ∷ prefix)
    → WithinDepths d' prefix
unfolding validate_char
validate_char-later c d d' prefix h w = ground arith

validate_char-Closes_later :
    (c : ℕ) (d d' : Depths) (s : Text) → validate_char c d ≡ ok d' → Closes d (c ∷ s) → Closes d' s
unfolding validate_char
validate_char-Closes_later c d d' s h w = ground arith

validate_plain_accepts :
    (s : Text) (d : Depths) → BalancedFrom d s → (r : Depths) × (validate_plain s d ≡ ok r)
unfolding validate_plain
validate_plain_accepts [] d (within, closes) = (d, unfold validate_end in ground arith)
validate_plain_accepts (c ∷ s) d (within, closes) =
    let (d', char) = settled (validate_char c d) refl (validate_char-Settles c d) in
    let (r, rest) = validate_plain_accepts s d' (
      (λ n. validate_char-later c d d' (take n s) char (within (suc n))),
      validate_char-Closes_later c d d' s char closes,
    ) in
    (r, rw (char, validate_plain) rest)
  where
    settled :
        (m : Result Depths)
        → validate_char c d ≡ m
        → Settles m
        → (d' : Depths) × (validate_char c d ≡ ok d')
    settled m e (returns d') = (d', e)
    settled m e (raises x) = absurd (validate_char-ne-throw c d x (within 1) e)

-- Validation accepts an expression exactly when its unescaped characters are balanced.
pub validate_iff :
    (expression : Text) → ((r : Depths) × (validate expression ≡ ok r)) ↔ IsBalanced expression
unfolding validate
validate_iff expression = (accepted, λ b. rw unescape (validate_plain_accepts plain no_depths b))
  where
    plain : Text
    plain = unescaped false expression

    unescape : validate_from false expression no_depths ≡ validate_plain plain no_depths
    unescape = validate_from-unescaped false expression no_depths

    accepted : ((r : Depths) × (validate expression ≡ ok r)) → IsBalanced expression
    accepted (r, h) = validate_plain-BalancedFrom plain no_depths r (omega arith) (rw unescape at h)
