-- ===== src/Tag/Matching.antt =====
-- What a tag expression accepts.
use cucumber_cpp.Base.{
  ◌≡◌, refl, ◌↔◌, ◌⊎◌, true, false, List, [], ◌∷◌, arith, All, Text, equal_iff, IsIn,
}
use cucumber_cpp.Tag.{
  OrTagExpression, AndTagExpression, or_tag_matches_tag_list, any_matches, or_matches, all_match,
  and_matches,
}

-- Some tag of the first list is on the second.
abbrev pub Shares : List Text → List Text → Type 0
Shares [] tags = ⊥
Shares (o ∷ or_tags) tags = IsIn o tags ⊎ Shares or_tags tags

or_tag_matches_tag_list_iff :
    (o : Text) (tags : List Text) → (or_tag_matches_tag_list o tags ≡ true) ↔ IsIn o tags
unfolding or_tag_matches_tag_list
or_tag_matches_tag_list_iff o [] = ground arith
or_tag_matches_tag_list_iff o (t ∷ tags) =
    ground (arith, equal_iff t o, or_tag_matches_tag_list_iff o tags)

any_matches_iff : (os tags : List Text) → (any_matches os tags ≡ true) ↔ Shares os tags
unfolding any_matches
any_matches_iff [] tags = ground arith
any_matches_iff (o ∷ os) tags =
    ground (arith, or_tag_matches_tag_list_iff o tags, any_matches_iff os tags)

all_match-false : (es : List OrTagExpression) (tags : List Text) → all_match false es tags ≡ false
unfolding all_match
all_match-false [] tags = refl
all_match-false (e ∷ es) tags = refl

all_match_iff :
    (es : List OrTagExpression) (tags : List Text)
    → (all_match true es tags ≡ true) ↔ All (λ e. Shares e.or_tags tags) es
unfolding all_match or_matches
all_match_iff [] tags = ground arith
all_match_iff (e ∷ es) tags =
    ground (arith, any_matches_iff e.or_tags tags, all_match_iff es tags, all_match-false es tags)

-- A tag expression accepts exactly the lists that share a tag with each of its parts; so the
-- expression without parts accepts every list.
pub and_matches_iff :
    (e : AndTagExpression) (tags : List Text)
    → (and_matches e tags ≡ true) ↔ All (λ o. Shares o.or_tags tags) e.or_expressions
unfolding and_matches
and_matches_iff e tags = all_match_iff e.or_expressions tags
