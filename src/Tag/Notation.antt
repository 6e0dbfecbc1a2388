-- ===== src/Tag/Notation.antt =====
-- Tag expressions read back from the notation that the hook macros write.
use cucumber_cpp.Base.{
  ℕ, zero, suc, ◌≤◌, ◌≡◌, refl, ap, ap₂, ◌∙◌, Bool, true, not, none, some, List, [], ◌∷◌, ◌++◌,
  arith, ◌==◌, All, length, length-append, Text,
}
use cucumber_cpp.Tag.{
  OrTagExpression, is_word, skip_spaces, span, separator, captured, closed, match_quoted, find_all,
  or_tag_expressions, and_tag_expression,
}
use cucumber_cpp.Tag.OrNotation.{
  AllPass, span-append, TagName, name, IsTagName, names, or_notation, find_all_nil,
  or_tag_expression-or_notation,
}

-- A group of alternatives, by its first tag and the others.
pub record TagGroup : Type 0 where
  pub head : TagName
  pub more : List TagName

abbrev pub tags_of : TagGroup → List TagName
tags_of g = g.head ∷ g.more

-- `"@a,@b","@c"`, as the hook macros pass their arguments on.
abbrev pub and_notation : List TagGroup → Text
and_notation [] = []
and_notation (g ∷ []) = b'"' ∷ (or_notation (tags_of g) ++ b'"' ∷ [])
and_notation (g ∷ k ∷ gs) = b'"' ∷ (or_notation (tags_of g) ++ b'"' ∷ b',' ∷ and_notation (k ∷ gs))

abbrev pub groups : List TagGroup → List OrTagExpression
groups [] = []
groups (g ∷ gs) = record { or_tags = names (tags_of g) } ∷ groups gs

abbrev pub IsTagGroup : TagGroup → Type 0
IsTagGroup g = All IsTagName (tags_of g)

abbrev unquoted : ℕ → Bool
unquoted c = not (c == b'"')

is_word-unquoted : (c : ℕ) → is_word c ≡ true → unquoted c ≡ true
unfolding is_word
is_word-unquoted c h = ground arith

AllPass-unquoted : (s : Text) → AllPass is_word s → AllPass unquoted s
AllPass-unquoted [] h = tt
AllPass-unquoted (c ∷ s) (p, h) = (is_word-unquoted c p, AllPass-unquoted s h)

pub AllPass-append :
    (pass : ℕ → Bool) (s t : Text) → AllPass pass s → AllPass pass t → AllPass pass (s ++ t)
AllPass-append pass [] t h k = k
AllPass-append pass (c ∷ s) t (p, h) k = (p, AllPass-append pass s t h k)

or_notation-unquoted : (ts : List TagName) → All IsTagName ts → AllPass unquoted (or_notation ts)
or_notation-unquoted [] h = tt
or_notation-unquoted (t ∷ []) (h, _) = (refl, AllPass-unquoted (name t) h)
or_notation-unquoted (t ∷ u ∷ ts) (h, hs) = (
  refl,
  AllPass-append unquoted (name t) _ (AllPass-unquoted (name t) h)
      (refl, or_notation-unquoted (u ∷ ts) hs),
)

-- The body of a group is not empty.
or_notation_cons : (g : TagGroup) → (s : Text) × (or_notation (tags_of g) ≡ b'@' ∷ s)
or_notation_cons g = go g.more
  where
    go : (more : List TagName) → (s : Text) × (or_notation (g.head ∷ more) ≡ b'@' ∷ s)
    go [] = (name g.head, refl)
    go (u ∷ ts) = (name g.head ++ b',' ∷ or_notation (u ∷ ts), refl)

match_quoted_body :
    (s rest : Text)
    → AllPass unquoted s
    → match_quoted (b'"' ∷ b'@' ∷ (s ++ b'"' ∷ rest)) ≡ captured (b'@' ∷ s, rest)
unfolding match_quoted closed skip_spaces
match_quoted_body s rest h = rw (span-append unquoted s b'"' rest h refl, span)

match_quoted_last :
    (g : TagGroup)
    → IsTagGroup g
    → match_quoted (and_notation (g ∷ [])) ≡ some (or_notation (tags_of g), [])
unfolding captured separator skip_spaces
match_quoted_last g h =
    let (s, body) = or_notation_cons g in
    let clean = rw body at (or_notation-unquoted (tags_of g) h) in
    rw body (match_quoted_body s [] clean.1)

match_quoted_more :
    (g : TagGroup) (rest : Text)
    → IsTagGroup g
    → match_quoted (b'"' ∷ (or_notation (tags_of g) ++ b'"' ∷ b',' ∷ rest))
      ≡ some (or_notation (tags_of g), rest)
unfolding captured separator skip_spaces
match_quoted_more g rest h =
    let (s, body) = or_notation_cons g in
    let clean = rw body at (or_notation-unquoted (tags_of g) h) in
    rw body (match_quoted_body s (b',' ∷ rest) clean.1)

match_quoted_nil : match_quoted [] ≡ none
unfolding match_quoted skip_spaces
match_quoted_nil = refl

abbrev bodies : List TagGroup → List Text
bodies [] = []
bodies (g ∷ gs) = or_notation (tags_of g) ∷ bodies gs

find_all-and_notation :
    (fuel : ℕ) (gs : List TagGroup)
    → All IsTagGroup gs
    → length gs ≤ fuel
    → find_all match_quoted fuel (and_notation gs) ≡ bodies gs
unfolding find_all
find_all-and_notation fuel [] h f = find_all_nil match_quoted fuel match_quoted_nil
find_all-and_notation zero (g ∷ gs) h f = absurd (omega arith)
find_all-and_notation (suc fuel) (g ∷ []) (h, _) f =
    rw (match_quoted_last g h, find_all)
      (ap (◌∷◌ (or_notation (tags_of g))) (find_all_nil match_quoted fuel match_quoted_nil))
find_all-and_notation (suc fuel) (g ∷ k ∷ gs) (h, hs) f =
    rw (match_quoted_more g (and_notation (k ∷ gs)) h, find_all)
      (ap (◌∷◌ (or_notation (tags_of g))) (find_all-and_notation fuel (k ∷ gs) hs (omega arith)))

length-and_notation : (gs : List TagGroup) → length gs ≤ length (and_notation gs)
length-and_notation [] = omega arith
length-and_notation (g ∷ []) = omega arith
length-and_notation (g ∷ k ∷ gs) = omega (
  arith,
  length-append (or_notation (tags_of g)) (b'"' ∷ b',' ∷ and_notation (k ∷ gs)),
  length-and_notation (k ∷ gs),
)

or_tag_expressions-bodies :
    (gs : List TagGroup) → All IsTagGroup gs → or_tag_expressions (bodies gs) ≡ groups gs
or_tag_expressions-bodies [] h = refl
or_tag_expressions-bodies (g ∷ gs) (h, hs) =
    ap₂ ◌∷◌ (or_tag_expression-or_notation (tags_of g) h) (or_tag_expressions-bodies gs hs)

-- `AndTagExpression` reads back the groups of tags that a hook macro passes on as
-- `"@a,@b","@c"`.
pub and_tag_expression-and_notation :
    (gs : List TagGroup)
    → All IsTagGroup gs
    → and_tag_expression (and_notation gs) ≡ record { or_expressions = groups gs }
unfolding and_tag_expression
and_tag_expression-and_notation gs h = λ i. record {
  or_expressions = (ap or_tag_expressions found ∙ or_tag_expressions-bodies gs h) i;
}
  where
    found : find_all match_quoted (length (and_notation gs)) (and_notation gs) ≡ bodies gs
    found = find_all-and_notation (length (and_notation gs)) gs h (length-and_notation gs)
