-- ===== src/Examples/Showcase/Tagged.antt =====
-- The hooks of the showcase, and which scenarios they are for.
use cucumber_cpp.Base.{
  ◌≡◌, refl, Bool, false, ◌&&◌, ◌||◌, some, List, [], ◌∷◌, map, Text, codes, equal, arith,
}
use cucumber_cpp.Tag.{
  AndTagExpression, no_tags, and_tag_expression, and_matches, or_tag_matches_tag_list,
}
use cucumber_cpp.Hook.Registrar.{Hooks, tags_match, UnconditionalHook}
use cucumber_cpp.Wire.Session.{no_hooks}
use cucumber_cpp.Examples.Showcase.{Written, say, around_body, register_showcase_hooks}
use cucumber_cpp.Examples.Showcase.Lines.{Row, row_hook}

abbrev pub or_group : List Text → AndTagExpression → AndTagExpression
or_group tags e = record e { or_expressions = record { or_tags = tags } ∷ e.or_expressions }

abbrev pub before_rows : List Row
before_rows =
    (no_tags, codes "-------------------- (Before any scenario)")
    ∷ (
      or_group (codes "foo" ∷ codes "bar" ∷ []) (or_group (codes "baz" ∷ []) no_tags),
      codes "Before scenario (\"@foo,@baz\",\"@bar\")",
    )
    ∷ []

abbrev pub after_step_rows : List Row
after_step_rows = (or_group (codes "bar" ∷ []) no_tags, codes "After step (\"@bar\")") ∷ []

-- The after hooks run in the reverse order of the file.
abbrev pub after_rows : List Row
after_rows =
    (or_group (codes "gherkin" ∷ []) no_tags, codes "After scenario (\"@gherkin\")")
    ∷ (or_group (codes "foo" ∷ []) no_tags, codes "After scenario (\"@foo\")")
    ∷ []

abbrev pub all_hook : Text → UnconditionalHook Written
all_hook line = record { body = say line }

abbrev pub showcase_hooks : Hooks Written
showcase_hooks = record {
  before_all_hooks = all_hook (codes "-------------------- (Before all scenarios)") ∷ [];
  before_hooks = map row_hook before_rows;
  around_step_hooks =
      record { tag_expression = or_group (codes "baz" ∷ []) no_tags; body = around_body } ∷ [];
  after_step_hooks = map row_hook after_step_rows;
  after_hooks = map row_hook after_rows;
  after_all_hooks = all_hook (codes "-------------------- (After all scenarios)") ∷ [];
}

pub showcase_hooks_registered : register_showcase_hooks (no_hooks Written) ≡ showcase_hooks
unfolding register_showcase_hooks and_tag_expression
showcase_hooks_registered = refl

-- The scenario has a tag.
abbrev pub has : Text → List Text → Bool
has tag [] = false
has tag (t ∷ tags) = equal t tag || has tag tags

has_lem : (tag : Text) (tags : List Text) → or_tag_matches_tag_list tag tags ≡ has tag tags
unfolding or_tag_matches_tag_list
has_lem tag [] = refl
has_lem tag (t ∷ tags) = ground (arith, has_lem tag tags)

pub tags_match-one :
    (tag : Text) (tags : List Text)
    → tags_match (some (record { tags = tags })) (or_group (tag ∷ []) no_tags) ≡ has tag tags
unfolding tags_match and_matches
tags_match-one tag tags = ground (arith, has_lem tag tags)

pub tags_match-two :
    (a b c : Text) (tags : List Text)
    → tags_match (some (record { tags = tags })) (or_group (a ∷ b ∷ []) (or_group (c ∷ []) no_tags))
      ≡ ((has a tags || has b tags) && has c tags)
unfolding tags_match and_matches
tags_match-two a b c tags = ground (arith, has_lem a tags, has_lem b tags, has_lem c tags)
