-- ===== src/Tag/Tests.antt =====
-- The tag expressions of the hook macros, and the theorems at them.
use cucumber_cpp.Base.{◌≡◌, ◌↔◌, refl, true, List, [], ◌∷◌, All, Text, codes}
use cucumber_cpp.Tag.{AndTagExpression, and_matches, and_tag_expression, is_word}
use cucumber_cpp.Tag.Matching.{Shares, and_matches_iff}
use cucumber_cpp.Tag.Notation.{TagGroup, groups, and_notation, and_tag_expression-and_notation}
use cucumber_cpp.Tag.OrNotation.{TagName, IsTagName}

abbrev expression : AndTagExpression
expression = record {
  or_expressions =
      record { or_tags = codes "a" ∷ codes "b" ∷ [] } ∷ record { or_tags = codes "c" ∷ [] } ∷ [];
}

abbrev tags : List Text
tags = codes "c" ∷ codes "b" ∷ []

and_matches_iff_example :
    (and_matches expression tags ≡ true)
    ↔ All (λ o. Shares o.or_tags tags) expression.or_expressions
and_matches_iff_example = and_matches_iff expression tags

abbrev smoke : TagName
smoke = record { first = b's'; others = codes "moke" }

abbrev db1 : TagName
db1 = record { first = b'd'; others = codes "b1" }

smoke-IsTagName : IsTagName smoke
unfolding is_word
smoke-IsTagName = (refl, (refl, (refl, (refl, (refl, tt)))))

db1-IsTagName : IsTagName db1
unfolding is_word
db1-IsTagName = (refl, (refl, (refl, tt)))

abbrev tag_groups : List TagGroup
tag_groups = record { head = smoke; more = db1 ∷ [] } ∷ record { head = db1; more = [] } ∷ []

and_tag_expression-and_notation_example :
    and_tag_expression (and_notation tag_groups) ≡ record { or_expressions = groups tag_groups }
and_tag_expression-and_notation_example =
    and_tag_expression-and_notation tag_groups
      ((smoke-IsTagName, (db1-IsTagName, tt)), ((db1-IsTagName, tt), tt))
