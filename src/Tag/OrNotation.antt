-- ===== src/Tag/OrNotation.antt =====
-- Lists of tag names and their notation, and what `OrTagExpression` reads in it.
use cucumber_cpp.Base.{
  ℕ, zero, suc, ◌≤◌, ◌≡◌, refl, ap, Bool, true, false, Option, none, some, List, [], ◌∷◌, ◌++◌,
  arith, All, length, length-append, Text,
}
use cucumber_cpp.Tag.{
  is_word, skip_spaces, span, separator, captured, match_or_tag, find_all, or_tag_expression,
}

-- Every character passes.
abbrev pub AllPass : (ℕ → Bool) → Text → Type 0
AllPass pass = All λ c. pass c ≡ true

pub span-append :
    (pass : ℕ → Bool) (run : Text) (c : ℕ) (rest : Text)
    → AllPass pass run
    → pass c ≡ false
    → span pass (run ++ c ∷ rest) ≡ (run, c ∷ rest)
unfolding span
span-append pass [] c rest h stop = rw stop
span-append pass (x ∷ run) c rest (p, h) stop = rw (span-append pass run c rest h stop, p)

pub span_all : (pass : ℕ → Bool) (run : Text) → AllPass pass run → span pass run ≡ (run, [])
unfolding span
span_all pass [] h = refl
span_all pass (x ∷ run) (p, h) = rw (span_all pass run h, p)

-- A tag name, by its first character and the others.
pub record TagName : Type 0 where
  pub first : ℕ
  pub others : Text

abbrev pub name : TagName → Text
name t = t.first ∷ t.others

abbrev pub IsTagName : TagName → Type 0
IsTagName t = AllPass is_word (name t)

abbrev pub names : List TagName → List Text
names [] = []
names (t ∷ ts) = name t ∷ names ts

-- `@a,@b,@c`.
abbrev pub or_notation : List TagName → Text
or_notation [] = []
or_notation (t ∷ []) = b'@' ∷ name t
or_notation (t ∷ u ∷ ts) = b'@' ∷ (name t ++ b',' ∷ or_notation (u ∷ ts))

match_or_tag_last : (t : TagName) → IsTagName t → match_or_tag (b'@' ∷ name t) ≡ some (name t, [])
unfolding match_or_tag captured separator skip_spaces
match_or_tag_last t h = rw (span_all is_word (name t) h)

match_or_tag_more :
    (t : TagName) (rest : Text)
    → IsTagName t
    → match_or_tag (b'@' ∷ (name t ++ b',' ∷ rest)) ≡ some (name t, rest)
unfolding match_or_tag captured separator skip_spaces
match_or_tag_more t rest h = rw (span-append is_word (name t) b',' rest h refl)

pub find_all_nil :
    (match_one : Text → Option (Text × Text)) (fuel : ℕ)
    → match_one [] ≡ none
    → find_all match_one fuel [] ≡ []
unfolding find_all
find_all_nil match_one zero h = refl
find_all_nil match_one (suc fuel) h = rw (h, find_all)

match_or_tag_nil : match_or_tag [] ≡ none
unfolding match_or_tag skip_spaces
match_or_tag_nil = refl

find_all-or_notation :
    (fuel : ℕ) (ts : List TagName)
    → All IsTagName ts
    → length ts ≤ fuel
    → find_all match_or_tag fuel (or_notation ts) ≡ names ts
unfolding find_all
find_all-or_notation fuel [] h f = find_all_nil match_or_tag fuel match_or_tag_nil
find_all-or_notation zero (t ∷ ts) h f = absurd (omega arith)
find_all-or_notation (suc fuel) (t ∷ []) (h, _) f =
    rw (match_or_tag_last t h, find_all)
      (ap (◌∷◌ (name t)) (find_all_nil match_or_tag fuel match_or_tag_nil))
find_all-or_notation (suc fuel) (t ∷ u ∷ ts) (h, hs) f =
    rw (match_or_tag_more t (or_notation (u ∷ ts)) h, find_all)
      (ap (◌∷◌ (name t)) (find_all-or_notation fuel (u ∷ ts) hs (omega arith)))

length-or_notation : (ts : List TagName) → length ts ≤ length (or_notation ts)
length-or_notation [] = omega arith
length-or_notation (t ∷ []) = omega arith
length-or_notation (t ∷ u ∷ ts) =
    omega (arith, length-append (name t) (b',' ∷ or_notation (u ∷ ts)), length-or_notation (u ∷ ts))

-- `OrTagExpression` reads back the tags that are written as `@a,@b`.
pub or_tag_expression-or_notation :
    (ts : List TagName)
    → All IsTagName ts
    → or_tag_expression (or_notation ts) ≡ record { or_tags = names ts }
unfolding or_tag_expression
or_tag_expression-or_notation ts h = λ i. record {
  or_tags = find_all-or_notation (length (or_notation ts)) ts h (length-or_notation ts) i;
}
