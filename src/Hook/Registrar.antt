-- ===== src/Hook/Registrar.antt =====
-- Hooks, their tags, and the lists in which they are registered. The body of a hook is user code
-- on the program's state `S`.
use cucumber_cpp.Base.{Bool, true, Option, none, some, List, [], ◌∷◌, ◌++◌, if◌then◌else◌, Text}
use cucumber_cpp.Tag.{AndTagExpression, no_tags, and_matches, and_tag_expression}
use cucumber_cpp.Step.Body.{Thrown, Exit, returns, throws}

pub record Scenario : Type 0 where
  pub tags : List Text

-- A `BeforeHook`, an `AfterStepHook` or an `AfterHook`.
pub record Hook (S : Type 0) : Type 0 where
  pub tag_expression : AndTagExpression
  pub body : S → Exit S

-- A `BeforeAllHook` or an `AfterAllHook`: its tags are never read.
pub record UnconditionalHook (S : Type 0) : Type 0 where
  pub body : S → Exit S

-- The body of an `AroundStepHook` also calls the step, in a `try` block: one part goes on behind a
-- call that returns, and one handles what the call throws.
pub data AroundBody (S : Type 0) : Type 0 where
  finish : AroundBody S
  raise : Thrown → AroundBody S
  update : (S → S) → AroundBody S → AroundBody S
  inspect : (S → AroundBody S) → AroundBody S
  call_step : AroundBody S → (Thrown → AroundBody S) → AroundBody S

pub record AroundStepHook (S : Type 0) : Type 0 where
  pub tag_expression : AndTagExpression
  pub body : AroundBody S

-- The static lists of `HookRegistrar`.
pub record Hooks (S : Type 0) : Type 0 where
  pub before_all_hooks : List (UnconditionalHook S)
  pub before_hooks : List (Hook S)
  pub around_step_hooks : List (AroundStepHook S)
  pub after_step_hooks : List (Hook S)
  pub after_hooks : List (Hook S)
  pub after_all_hooks : List (UnconditionalHook S)

-- `Hook::tagsMatch`; `none` is a null pointer.
unfoldable pub tags_match : Option Scenario → AndTagExpression → Bool
tags_match none e = true
tags_match (some scenario) e = and_matches e scenario.tags

module _ {S : Type 0} where
  -- `Hook::invokeHook`; `skipHook` does nothing.
  unfoldable pub invoke_hook : Option Scenario → Hook S → S → Exit S
  invoke_hook scenario h s = if tags_match scenario h.tag_expression then h.body s else returns s

  -- `UnconditionalHook::invokeHook`.
  abbrev pub invoke_unconditional_hook : UnconditionalHook S → S → Exit S
  invoke_unconditional_hook h = h.body

  -- What follows a call that may throw.
  abbrev pub and_then : Exit S → (S → Exit S) → Exit S
  and_then (returns s) k = k s
  and_then (throws t s) k = throws t s

  -- `execHooks`, for the lists with tags and for those without.
  unfoldable pub exec_hooks : List (Hook S) → Option Scenario → S → Exit S
  exec_hooks [] scenario s = returns s
  exec_hooks (h ∷ hooks) scenario s =
      and_then (invoke_hook scenario h s) λ s'. exec_hooks hooks scenario s'

  unfoldable pub exec_unconditional_hooks : List (UnconditionalHook S) → S → Exit S
  exec_unconditional_hooks [] s = returns s
  exec_unconditional_hooks (h ∷ hooks) s =
      and_then (invoke_unconditional_hook h s) λ s'. exec_unconditional_hooks hooks s'

  unfoldable pub add_before_hook : Hook S → Hooks S → Hooks S
  add_before_hook h hs = record hs { before_hooks = hs.before_hooks ++ h ∷ [] }

  unfoldable pub add_around_step_hook : AroundStepHook S → Hooks S → Hooks S
  add_around_step_hook h hs = record hs { around_step_hooks = h ∷ hs.around_step_hooks }

  unfoldable pub add_after_step_hook : Hook S → Hooks S → Hooks S
  add_after_step_hook h hs = record hs { after_step_hooks = h ∷ hs.after_step_hooks }

  unfoldable pub add_after_hook : Hook S → Hooks S → Hooks S
  add_after_hook h hs = record hs { after_hooks = h ∷ hs.after_hooks }

  unfoldable pub add_before_all_hook : UnconditionalHook S → Hooks S → Hooks S
  add_before_all_hook h hs = record hs { before_all_hooks = hs.before_all_hooks ++ h ∷ [] }

  unfoldable pub add_after_all_hook : UnconditionalHook S → Hooks S → Hooks S
  add_after_all_hook h hs = record hs { after_all_hooks = hs.after_all_hooks ++ h ∷ [] }

  unfoldable pub exec_before_hooks : Hooks S → Option Scenario → S → Exit S
  unfolding exec_hooks
  exec_before_hooks hs = exec_hooks hs.before_hooks

  unfoldable pub exec_after_step_hooks : Hooks S → Option Scenario → S → Exit S
  unfolding exec_hooks
  exec_after_step_hooks hs = exec_hooks hs.after_step_hooks

  unfoldable pub exec_after_hooks : Hooks S → Option Scenario → S → Exit S
  unfolding exec_hooks
  exec_after_hooks hs = exec_hooks hs.after_hooks

  unfoldable pub exec_before_all_hooks : Hooks S → S → Exit S
  unfolding exec_unconditional_hooks
  exec_before_all_hooks hs = exec_unconditional_hooks hs.before_all_hooks

  unfoldable pub exec_after_all_hooks : Hooks S → S → Exit S
  unfolding exec_unconditional_hooks
  exec_after_all_hooks hs = exec_unconditional_hooks hs.after_all_hooks

  -- `setTags` on a new hook object.
  unfoldable pub set_tags : Text → Hook S → Hook S
  set_tags csv h = record h { tag_expression = and_tag_expression csv }

  unfoldable pub set_around_tags : Text → AroundStepHook S → AroundStepHook S
  set_around_tags csv h = record h { tag_expression = and_tag_expression csv }

  unfoldable pub register_before_hook : Text → (S → Exit S) → Hooks S → Hooks S
  unfolding set_tags add_before_hook
  register_before_hook csv body =
      add_before_hook (set_tags csv (record { tag_expression = no_tags; body = body }))

  unfoldable pub register_around_step_hook : Text → AroundBody S → Hooks S → Hooks S
  unfolding set_around_tags add_around_step_hook
  register_around_step_hook csv body =
      add_around_step_hook (set_around_tags csv (record { tag_expression = no_tags; body = body }))

  unfoldable pub register_after_step_hook : Text → (S → Exit S) → Hooks S → Hooks S
  unfolding set_tags add_after_step_hook
  register_after_step_hook csv body =
      add_after_step_hook (set_tags csv (record { tag_expression = no_tags; body = body }))

  unfoldable pub register_after_hook : Text → (S → Exit S) → Hooks S → Hooks S
  unfolding set_tags add_after_hook
  register_after_hook csv body =
      add_after_hook (set_tags csv (record { tag_expression = no_tags; body = body }))

  unfoldable pub register_before_all_hook : (S → Exit S) → Hooks S → Hooks S
  unfolding add_before_all_hook
  register_before_all_hook body = add_before_all_hook (record { body = body })

  unfoldable pub register_after_all_hook : (S → Exit S) → Hooks S → Hooks S
  unfolding add_after_all_hook
  register_after_all_hook body = add_after_all_hook (record { body = body })
