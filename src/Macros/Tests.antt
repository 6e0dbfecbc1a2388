-- ===== src/Macros/Tests.antt =====
-- A step with two arguments, and hooks for the tags of `BEFORE("@a,@b","@c")`.
use cucumber_cpp.Base.{
  ℕ, zero, suc, ◌+◌, ◌<◌, arith, ◌≡◌, ◌↔◌, if◌then◌else◌, refl, Bool, true, not, List, [], ◌∷◌,
  Text, codes, is_empty, length, some, All,
}
use cucumber_cpp.Table.{empty_table}
use cucumber_cpp.Tag.Notation.{TagGroup, and_notation, IsTagGroup}
use cucumber_cpp.Tag.OrNotation.{TagName}
use cucumber_cpp.Tag.{is_word}
use cucumber_cpp.Step.Body.{Exit, returns, StepBody, update, finish, InvokeArgs, run_body}
use cucumber_cpp.Step.Outcome.{started}
use cucumber_cpp.Hook.Registrar.{Scenario, Hooks, and_then, exec_before_hooks}
use cucumber_cpp.Macros.{ArgTypes, invoke_with_args, before}
use cucumber_cpp.Macros.Arguments.{IsOrder, is_in, SameEnd, regex_params, invoke_with_args-SameEnd}
use cucumber_cpp.Macros.Tags.{HasTags, before-HasTags}

abbrev types : ArgTypes
types = record { converts = (λ arg. true) ∷ (λ arg. not (is_empty arg)) ∷ []; order = 1 ∷ 0 ∷ [] }

types-IsOrder : IsOrder 2 types.order
types-IsOrder = record { below = (omega arith, (omega arith, tt)); complete = complete }
  where
    complete : (j : ℕ) → j < 2 → is_in j types.order ≡ true
    complete zero less = refl
    complete (suc zero) less = refl
    complete (suc (suc j)) less = absurd (omega arith)

abbrev count_args : List Text → StepBody ℕ
count_args args = update (λ n. n + length args) finish

-- The second argument does not convert.
abbrev args : InvokeArgs
args = record { table_arg = empty_table; args = codes "7" ∷ [] ∷ [] }

invoke_with_args-SameEnd_example :
    SameEnd
      (run_body (invoke_with_args types count_args) (started args 0))
      (run_body (regex_params types.converts count_args) (started args 0))
invoke_with_args-SameEnd_example = invoke_with_args-SameEnd types count_args args 0 types-IsOrder

abbrev tag : ℕ → TagName
tag c = record { first = c; others = [] }

abbrev tags : List TagGroup
tags = record { head = tag b'a'; more = tag b'b' ∷ [] } ∷ record { head = tag b'c'; more = [] } ∷ []

tags-IsTagGroup : All IsTagGroup tags
unfolding is_word
tags-IsTagGroup = (((refl, tt), ((refl, tt), tt)), (((refl, tt), tt), tt))

abbrev scenario : Scenario
scenario = record { tags = codes "c" ∷ codes "b" ∷ [] }

abbrev hooks : Hooks ℕ
hooks = record {
  before_all_hooks = [];
  before_hooks = [];
  around_step_hooks = [];
  after_step_hooks = [];
  after_hooks = [];
  after_all_hooks = [];
}

abbrev body : ℕ → Exit ℕ
body n = returns (n + 1)

before-HasTags_example :
    (b : Bool) × ((b ≡ true) ↔ HasTags scenario tags)
    × (exec_before_hooks (before (and_notation tags) body hooks) (some scenario) 0 ≡ (
        if b
        then and_then (exec_before_hooks hooks (some scenario) 0) body
        else exec_before_hooks hooks (some scenario) 0))
before-HasTags_example = before-HasTags scenario tags body tags-IsTagGroup hooks 0
