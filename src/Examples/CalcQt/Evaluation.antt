-- ===== src/Examples/CalcQt/Evaluation.antt =====
-- What the calculator makes of an expression that is written as numbers with signs between them.
use cucumber_cpp.Base.{
  ℕ, zero, suc, ◌+◌, ◌-◌, Bool, true, leb, ◌&&◌, none, if◌then◌else◌, ◌%◌, ◌/◌, ◌<◌, ◌≡◌, refl, sym,
  ap, ◌∙◌, false, Option, some, List, [], ◌∷◌, ◌++◌, ◌>>=◌, if_cases, ltb, lt→ltb, arith, length,
  length-append, Text, to_string, to_digits, All,
}
use cucumber_cpp.Tag.{span}
use cucumber_cpp.Tag.Notation.{AllPass-append}
use cucumber_cpp.Tag.OrNotation.{AllPass, span-append, span_all}
use cucumber_cpp.Engine.{is_digit}
use cucumber_cpp.Engine.Ids.{StartsWithDigit, digit_lem, to_digits-StartsWithDigit, read_whole}
use cucumber_cpp.Examples.CalcQt.{
  ℤ, pos, negsuc, add_nat, sub_nat, int_limit, checked, to_int, next_match, apply, calculate_from,
  calculate,
}

-- The sign in front of a number, and the number.
pub data Term : Type 0 where
  plus minus : ℕ → Term

abbrev pub sign : Term → ℕ
sign (plus n) = b'+'
sign (minus n) = b'-'

abbrev pub value : Term → ℕ
value (plus n) = n
value (minus n) = n

-- A number and terms behind it.
abbrev pub written : ℕ → List Term → Text
written n [] = to_string n
written n (t ∷ terms) = to_string n ++ sign t ∷ written (value t) terms

-- The sum of the numbers behind a plus sign, and of those behind a minus sign.
abbrev pub Sums : Type 0
Sums = ℕ × ℕ

abbrev pub after : Term → Sums → Sums
after (plus n) (up, down) = (up + n, down)
after (minus n) (up, down) = (up, down + n)

abbrev pub difference : Sums → ℤ
difference (up, down) = if leb down up then pos (up - down) else negsuc (down - up - 1)

-- The difference is one of -2147483648 to 2147483647.
abbrev pub is_int : Sums → Bool
is_int (up, down) = leb down (up + 2147483648) && ltb up (down + 2147483648)

-- The difference of the sums behind a row of terms, if it is in the range of `int` behind each.
abbrev pub evaluate : Sums → List Term → Option ℤ
evaluate sums [] = some (difference sums)
evaluate sums (t ∷ terms) =
    let rest = evaluate (after t sums) terms in if is_int (after t sums) then rest else none

add_nat-difference : (up down n : ℕ) → add_nat (difference (up, down)) n ≡ difference (up + n, down)
unfolding add_nat
add_nat-difference up down n = ground arith

sub_nat-difference : (up down n : ℕ) → sub_nat (difference (up, down)) n ≡ difference (up, down + n)
unfolding sub_nat
sub_nat-difference up down n = ground arith

checked-difference :
    (up down : ℕ)
    → checked (difference (up, down))
      ≡ (if is_int (up, down) then some (difference (up, down)) else none)
unfolding checked
checked-difference up down = ground arith

-- A round of the loop on a term.
checked-after :
    (t : Term) (sums : Sums)
    → checked (apply (sign t) (difference sums) (value t))
      ≡ (if is_int (after t sums) then some (difference (after t sums)) else none)
unfolding apply
checked-after (plus n) (up, down) =
    ap checked (add_nat-difference up down n) ∙ checked-difference (up + n) down
checked-after (minus n) (up, down) =
    ap checked (sub_nat-difference up down n) ∙ checked-difference up (down + n)

bind_if :
    (b : Bool) (x : ℤ) (y : Option ℤ) (next : ℤ → Option ℤ)
    → next x ≡ y
    → ((if b then some x else none) >>= next) ≡ (if b then y else none)
bind_if true x y next h = h
bind_if false x y next h = refl

AllPass-to_digits : (fuel n : ℕ) → AllPass is_digit (to_digits fuel n)
unfolding to_digits
AllPass-to_digits zero n = tt
AllPass-to_digits (suc fuel) n =
    let front = AllPass-to_digits fuel (n / 10) in
    if_cases (AllPass is_digit) (ltb n 10) (λ small. (digit_lem n (ground (arith, small)), tt))
      (λ large.
        AllPass-append is_digit (to_digits fuel (n / 10)) _ front
          (digit_lem (n % 10) (omega arith), tt))

next_match-StartsWithDigit : (s : Text) → StartsWithDigit s → next_match s ≡ some (span is_digit s)
unfolding next_match
next_match-StartsWithDigit s d = rw d.same (rw d.digit refl)

StartsWithDigit-append : (s rest : Text) → StartsWithDigit s → StartsWithDigit (s ++ rest)
StartsWithDigit-append s rest d = record {
  first = d.first;
  rest = d.rest ++ rest;
  same = ap (◌++ rest) d.same;
  digit = d.digit;
}

StartsWithDigit-length : (s : Text) → StartsWithDigit s → 0 < length s
StartsWithDigit-length s d = rw d.same (omega arith)

sign_lem : (t : Term) → is_digit (sign t) ≡ false
unfolding is_digit
sign_lem (plus n) = refl
sign_lem (minus n) = refl

module _ (n : ℕ) where
  to_string-StartsWithDigit : StartsWithDigit (to_string n)
  unfolding to_string
  to_string-StartsWithDigit = to_digits-StartsWithDigit (suc n) n (omega arith)

  AllPass-to_string : AllPass is_digit (to_string n)
  unfolding to_string
  AllPass-to_string = AllPass-to_digits (suc n) n

  next_match-to_string : next_match (to_string n) ≡ some (to_string n, [])
  next_match-to_string =
      next_match-StartsWithDigit (to_string n) to_string-StartsWithDigit
      ∙ ap some (span_all is_digit (to_string n) AllPass-to_string)

  next_match-sign :
      (t : Term) (rest : Text)
      → next_match (to_string n ++ sign t ∷ rest) ≡ some (to_string n, sign t ∷ rest)
  next_match-sign t rest =
      next_match-StartsWithDigit (to_string n ++ sign t ∷ rest)
        (StartsWithDigit-append (to_string n) (sign t ∷ rest) to_string-StartsWithDigit)
      ∙ ap some (span-append is_digit (to_string n) (sign t) rest AllPass-to_string (sign_lem t))

  to_int-to_string : n < int_limit → to_int (to_string n) ≡ n
  unfolding to_int to_string
  to_int-to_string h = rw (read_whole (suc n) n (omega arith)) (rw (lt→ltb n int_limit h) refl)

length-written : (n : ℕ) (terms : List Term) → length terms < length (written n terms)
length-written n [] = StartsWithDigit-length (to_string n) (to_string-StartsWithDigit n)
length-written n (t ∷ terms) = omega (
  arith,
  length-append (to_string n) (sign t ∷ written (value t) terms),
  length-written (value t) terms,
)

-- The numbers of a row of terms are in the range of `int`.
abbrev pub InRange : Term → Type 0
InRange t = value t < 2147483648

next_match_skips : (t : Term) (rest : Text) → next_match (sign t ∷ rest) ≡ next_match rest
unfolding next_match is_digit
next_match_skips (plus n) rest = refl
next_match_skips (minus n) rest = refl

calculate_from_nil :
    (fuel operation : ℕ) (result : ℤ) → calculate_from fuel [] operation result ≡ some result
unfolding calculate_from
calculate_from_nil zero operation result = refl
calculate_from_nil (suc fuel) operation result = refl

calculate_from-sign :
    (fuel : ℕ) (t : Term) (rest : Text) (operation : ℕ) (result : ℤ)
    → calculate_from fuel (sign t ∷ rest) operation result
      ≡ calculate_from fuel rest operation result
unfolding calculate_from
calculate_from-sign zero t rest operation result = refl
calculate_from-sign (suc fuel) t rest operation result =
    rw (next_match_skips t rest, calculate_from) refl

-- The loop in front of a number whose sign it has read.
calculate_from-written :
    (fuel : ℕ) (t : Term) (terms : List Term) (sums : Sums)
    → length terms < fuel
    → All InRange (t ∷ terms)
    → calculate_from fuel (written (value t) terms) (sign t) (difference sums)
      ≡ evaluate sums (t ∷ terms)
unfolding calculate_from
calculate_from-written zero t terms sums enough h = absurd (omega arith)
calculate_from-written (suc fuel) t [] sums enough (h, _) =
    let next : ℤ → Option ℤ = λ r'. calculate_from fuel [] (sign t) r' in
    rw (next_match-to_string (value t), to_int-to_string (value t) h, calculate_from)
      (ap (λ o. o >>= next) (checked-after t sums)
        ∙ bind_if (is_int (after t sums)) _ _ next (calculate_from_nil fuel (sign t) _))
calculate_from-written (suc fuel) t (u ∷ terms) sums enough (h, hs) =
    let rest = written (value u) terms in
    let next : ℤ → Option ℤ = λ r'. calculate_from fuel (sign u ∷ rest) (sign u) r' in
    rw (next_match-sign (value t) u rest, to_int-to_string (value t) h, calculate_from)
      (ap (λ o. o >>= next) (checked-after t sums)
        ∙ bind_if (is_int (after t sums)) _ _ next (
            calculate_from-sign fuel u rest (sign u) (difference (after t sums))
            ∙ calculate_from-written fuel u terms (after t sums) (omega arith) hs))

-- An expression that is written as a number and terms, all of them less than 2147483648, gives the
-- sum of the numbers behind plus signs, the first one included, less the sum of those behind minus
-- signs; the result is missing exactly if this difference, taken up to some term, is below
-- -2147483648 or above 2147483647.
pub calculate-written :
    (n : ℕ) (terms : List Term)
    → All InRange (plus n ∷ terms)
    → calculate (written n terms) ≡ evaluate (0, 0) (plus n ∷ terms)
unfolding calculate
calculate-written n terms h =
    calculate_from-written (length (written n terms)) (plus n) terms (0, 0) (length-written n terms)
      h

-- A minus sign in front of an expression is passed over: so a negative result is taken as a positive
-- one by the calculation that goes on from it.
pub calculate_minus :
    (n : ℕ) (terms : List Term)
    → All InRange (plus n ∷ terms)
    → calculate (b'-' ∷ written n terms) ≡ calculate (written n terms)
unfolding calculate
calculate_minus n terms h =
    calculate_from-sign (suc (length (written n terms))) (minus 0) (written n terms) b'+' (pos 0)
    ∙ calculate_from-written (suc (length (written n terms))) (plus n) terms (0, 0)
        (omega (arith, length-written n terms)) h
    ∙ sym (
        calculate_from-written (length (written n terms)) (plus n) terms (0, 0)
          (length-written n terms) h)
