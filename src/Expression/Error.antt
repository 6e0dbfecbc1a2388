-- ===== src/Expression/Error.antt =====
-- The exception classes of include/cucumber-cpp/internal/utils/CucumberExpression.hpp, and the
-- outcome of a function that may throw one.
use native.Mathlib.Nat.{suc-add}
use cucumber_cpp.Base.{
  ℕ, zero, suc, ◌+◌, ◌<◌, ◌≡◌, refl, arith, length, char_at, Option, none, some, [], ◌∷◌, ◌++◌, ◌⊎◌,
  inl, inr, Text, codes, to_string,
}

-- The class of the exception object; every class derives from `base_exception`'s.
pub data Kind : Type 0 where
  base_exception : Kind
  unknown_parameter_type : Text → Kind
  unclosed_parameter unclosed_optional : Kind
  unmatched_closing_brace unmatched_closing_parenthesis : Kind
  empty_optional optional_parameter_type alternation_in_optional : Kind
  empty_alternative nested_optional empty_expression : Kind

pub record Exception : Type 0 where
  pub kind : Kind
  pub what : Text

abbrev pub base_error : Text → Exception
base_error message = record { kind = base_exception; what = message }

abbrev pub unclosed_parameter_error : Text → Exception
unclosed_parameter_error message = record { kind = unclosed_parameter; what = message }

abbrev pub unclosed_optional_error : Text → Exception
unclosed_optional_error message = record { kind = unclosed_optional; what = message }

abbrev pub unknown_parameter_type_error : Text → Exception
unknown_parameter_type_error param_type = record {
  kind = unknown_parameter_type param_type;
  what = codes "Unknown parameter type: {" ++ (param_type ++ codes "}");
}

abbrev pub unmatched_closing_brace_error : Exception
unmatched_closing_brace_error = record {
  kind = unmatched_closing_brace;
  what = codes "Unexpected closing brace '}' without matching opening brace";
}

abbrev pub unmatched_closing_parenthesis_error : Exception
unmatched_closing_parenthesis_error = record {
  kind = unmatched_closing_parenthesis;
  what = codes "Unexpected closing parenthesis ')' without matching opening parenthesis";
}

-- A column of -1, the default, is `none`.
abbrev pub column_note : Text → Option ℕ → Text
column_note message none = message
column_note message (some column) =
    message ++ (codes " (at column " ++ (to_string column ++ codes ")"))

abbrev pub empty_optional_error : Option ℕ → Exception
empty_optional_error column = record {
  kind = empty_optional;
  what = column_note (codes "An optional must contain some text") column;
}

abbrev pub optional_parameter_type_error : Option ℕ → Exception
optional_parameter_type_error column = record {
  kind = optional_parameter_type;
  what = column_note (codes "An optional may not contain a parameter type") column;
}

abbrev pub alternation_in_optional_error : Exception
alternation_in_optional_error = record {
  kind = alternation_in_optional;
  what = codes "Alternation is not allowed inside optional text";
}

abbrev pub empty_alternative_error : Option ℕ → Exception
empty_alternative_error column = record {
  kind = empty_alternative;
  what = column_note (codes "Alternation may not have empty alternatives") column;
}

abbrev pub nested_optional_error : Exception
nested_optional_error = record {
  kind = nested_optional;
  what = codes "Nested optional text is not allowed";
}

abbrev pub empty_expression_error : Exception
empty_expression_error = record {
  kind = empty_expression;
  what = codes "Cucumber expression cannot be empty";
}

-- `undefined` is a read outside a string, and `no_fuel` a loop cut short.
pub data Result {ℓ} (A : Type ℓ) : Type ℓ where
  ok : A → Result A
  throw : Exception → Result A
  undefined no_fuel : Result A

infixl 5 ◌>>=◌
abbrev pub ◌>>=◌ {ℓ κ} : {A : Type ℓ} {B : Type κ} → Result A → (A → Result B) → Result B
no_fuel >>= next = no_fuel
undefined >>= next = undefined
throw e >>= next = throw e
ok value >>= next = next value

-- `s[i]`: behind the last character there is a NUL, and any other read outside is undefined.
unfoldable pub read_at : Text → ℕ → Result ℕ
read_at [] zero = ok 0
read_at [] (suc i) = undefined
read_at (c ∷ s) zero = ok c
read_at (c ∷ s) (suc i) = read_at s i

pub read_at_inside : (s : Text) (i : ℕ) → i < length s → read_at s i ≡ ok (char_at s i)
unfolding read_at
read_at_inside [] i h = absurd (omega arith)
read_at_inside (c ∷ s) zero h = refl
read_at_inside (c ∷ s) (suc i) h = read_at_inside s i (omega arith)

pub read_at-append : (s : Text) (c : ℕ) (t : Text) → read_at (s ++ c ∷ t) (length s) ≡ ok c
unfolding read_at
read_at-append [] c t = refl
read_at-append (x ∷ s) c t = read_at-append s c t

pub read_at_one-append :
    (before : Text) (c d : ℕ) (s : Text) → read_at (before ++ c ∷ d ∷ s) (length before + 1) ≡ ok d
unfolding read_at
read_at_one-append [] c d s = refl
read_at_one-append (x ∷ before) c d s =
    rw (suc-add (length before) 1) (read_at_one-append before c d s)

module _ {ℓ κ} {A : Type ℓ} {B : Type κ} where
  -- What is thrown by a chain is thrown by its first step or by the next one.
  pub >>=-eq-throw :
      (run : Result A) (next : A → Result B) {x : Exception}
      → (run >>= next) ≡ throw x
      → (run ≡ throw x) ⊎ ((value : A) × (run ≡ ok value) × (next value ≡ throw x))
  >>=-eq-throw no_fuel next thrown = cc
  >>=-eq-throw undefined next thrown = cc
  >>=-eq-throw (throw e) next thrown = inl cc
  >>=-eq-throw (ok value) next thrown = inr (value, refl, thrown)

  -- A chain that returns has a first step that returns.
  pub >>=-eq-ok :
      (run : Result A) (next : A → Result B) {result : B}
      → (run >>= next) ≡ ok result
      → (value : A) × (run ≡ ok value) × (next value ≡ ok result)
  >>=-eq-ok no_fuel next returned = cc
  >>=-eq-ok undefined next returned = cc
  >>=-eq-ok (throw e) next returned = cc
  >>=-eq-ok (ok value) next returned = (value, refl, returned)

-- An outcome that is a value or an exception.
pub data Settles {ℓ} {A : Type ℓ} : Result A → Type ℓ where
  returns : (a : A) → Settles (ok a)
  raises : (e : Exception) → Settles (throw e)

pub >>=-Settles {ℓ} :
    {A B : Type ℓ} (m : Result A) (f : A → Result B)
    → Settles m
    → ((a : A) → m ≡ ok a → Settles (f a))
    → Settles (m >>= f)
>>=-Settles (ok a) f s h = h a refl
>>=-Settles (throw e) f s h = raises e
>>=-Settles undefined f s h = elim s [ ]
>>=-Settles no_fuel f s h = elim s [ ]
