-- ===== src/Macros/Tags.antt =====
-- When a hook runs that is registered by a macro with tags.
use cucumber_cpp.Base.{
  ◌≡◌, ◌↔◌, refl, ◌∙◌, Bool, true, false, some, List, [], ◌∷◌, All, Text, if◌then◌else◌,
}
use cucumber_cpp.Tag.{and_tag_expression}
use cucumber_cpp.Tag.Notation.{
  TagGroup, tags_of, groups, and_notation, IsTagGroup, and_tag_expression-and_notation,
}
use cucumber_cpp.Tag.OrNotation.{names}
use cucumber_cpp.Tag.Matching.{Shares, and_matches_iff}
use cucumber_cpp.Step.Body.{Exit, returns}
use cucumber_cpp.Hook.Registrar.{
  Scenario, Hooks, tags_match, and_then, exec_before_hooks, exec_after_hooks,
}
use cucumber_cpp.Hook.Sequence.{
  run_one, and_then-returns, exec_before_hooks-register_all, exec_after_hooks-register_all,
}
use cucumber_cpp.Macros.{before, after}

-- The scenario has a tag of each group of the macro.
abbrev pub HasTags : Scenario → List TagGroup → Type 0
HasTags scenario gs = All (λ g. Shares (names (tags_of g)) scenario.tags) gs

All-groups :
    (tags : List Text) (gs : List TagGroup)
    → All (λ o. Shares o.or_tags tags) (groups gs) ↔ All (λ g. Shares (names (tags_of g)) tags) gs
All-groups tags [] = ((λ h. h), λ h. h)
All-groups tags (g ∷ gs) =
    let rest = All-groups tags gs in ((λ (h, hs). (h, rest.0 hs)), λ (h, hs). (h, rest.1 hs))

-- The tags of a hook that a macro registers match exactly the scenarios that have its tags.
tags_match-and_notation :
    (scenario : Scenario) (gs : List TagGroup)
    → All IsTagGroup gs
    → (tags_match (some scenario) (and_tag_expression (and_notation gs)) ≡ true)
      ↔ HasTags scenario gs
unfolding tags_match
tags_match-and_notation scenario gs h =
    let read = and_tag_expression-and_notation gs h in
    let accepts = and_matches_iff (record { or_expressions = groups gs }) scenario.tags in
    let pass = All-groups scenario.tags gs in
    ((λ e. pass.0 (accepts.0 (rw read at e))), λ e. rw read (accepts.1 (pass.1 e)))

module _ {S : Type 0} (scenario : Scenario) (gs : List TagGroup) (body : S → Exit S) where
  -- Behind `BEFORE("@a,@b","@c") { ... }`, a scenario runs that body behind its other before hooks
  -- exactly if it has a tag of each group; if not, the other hooks run as before.
  pub before-HasTags :
      All IsTagGroup gs
      → (hs : Hooks S) (s : S)
      → (b : Bool) × ((b ≡ true) ↔ HasTags scenario gs)
        × (exec_before_hooks (before (and_notation gs) body hs) (some scenario) s ≡ (
            if b
            then and_then (exec_before_hooks hs (some scenario) s) body
            else exec_before_hooks hs (some scenario) s))
  unfolding before
  before-HasTags h hs s =
      let e = exec_before_hooks hs (some scenario) s in
      (
        tags_match (some scenario) (and_tag_expression (and_notation gs)),
        tags_match-and_notation scenario gs h,
        exec_before_hooks-register_all (some scenario) ((and_notation gs, body) ∷ []) hs s
            ∙ (λ i.
                and_then e
                  (λ s'. and_then-returns (run_one (some scenario) (and_notation gs, body) s') i))
            ∙ forward (tags_match (some scenario) (and_tag_expression (and_notation gs))) e,
      )
    where
      forward :
          (b : Bool) (e : Exit S)
          → and_then e (λ s'. if b then body s' else returns s')
            ≡ (if b then and_then e body else e)
      forward true e = refl
      forward false e = and_then-returns e

  -- Behind `AFTER("@a,@b","@c") { ... }`, a scenario runs that body before its other after hooks
  -- exactly if it has a tag of each group; if not, the other hooks run as before.
  pub after-HasTags :
      All IsTagGroup gs
      → (hs : Hooks S) (s : S)
      → (b : Bool) × ((b ≡ true) ↔ HasTags scenario gs)
        × (exec_after_hooks (after (and_notation gs) body hs) (some scenario) s ≡ (
            if b
            then and_then (body s) (exec_after_hooks hs (some scenario))
            else exec_after_hooks hs (some scenario) s))
  unfolding after
  after-HasTags h hs s = (
    tags_match (some scenario) (and_tag_expression (and_notation gs)),
    tags_match-and_notation scenario gs h,
    exec_after_hooks-register_all (some scenario) ((and_notation gs, body) ∷ []) hs s
        ∙ backward (tags_match (some scenario) (and_tag_expression (and_notation gs))),
  )
    where
      backward :
          (b : Bool)
          → and_then (if b then body s else returns s) (exec_after_hooks hs (some scenario)) ≡ (
              if b
              then and_then (body s) (exec_after_hooks hs (some scenario))
              else exec_after_hooks hs (some scenario) s)
      backward true = refl
      backward false = refl
