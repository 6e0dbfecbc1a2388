-- ===== src/Examples/Showcase.antt =====
-- examples/FeatureShowcase/features/step_definitions/TagSteps.cpp: hooks with tags and two steps, each
-- of which writes a line to `cout`. The state of the user code is the lines written.
pub mod Lines
pub mod Tagged
pub mod Session
pub mod Scenario
pub mod Served
mod Tests
use cucumber_cpp.Base.{ℕ, true, List, [], ◌∷◌, ◌++◌, Text, codes}
use cucumber_cpp.Expression.Error.{Result, ok, ◌>>=◌}
use cucumber_cpp.Expression.Types.{TypeMap}
use cucumber_cpp.Regex.{RegexEngine}
use cucumber_cpp.Commands.{World}
use cucumber_cpp.Step.Body.{Exit, returns, StepBody, finish, update}
use cucumber_cpp.Step.Drivers.{gtest}
use cucumber_cpp.Step.Manager.{Registry}
use cucumber_cpp.Hook.Registrar as Hook
use cucumber_cpp.Hook.Registrar.{AroundBody, Hooks}
use cucumber_cpp.Macros.{
  no_types, regex_param, cuke_step, before, around_step, after_step, after, before_all, after_all,
}

abbrev pub Written : Type 0
Written = World (List Text)

-- `cout << line << endl`.
unfoldable pub print : Text → Written → Written
print line w = record w { user = w.user ++ line ∷ [] }

unfoldable pub say : Text → Written → Exit Written
unfolding print
say line w = returns (print line w)

-- The body of `AROUND_STEP`; an exception of the call is not handled.
unfoldable pub around_body : AroundBody Written
unfolding print
around_body = Hook.update (print (codes "Around step (\"@baz\") ...before")) (
    Hook.call_step (Hook.update (print (codes "Around step (\"@baz\") ..after")) Hook.finish)
      Hook.raise)

-- The hooks of the file, in the order of its lines.
unfoldable pub register_showcase_hooks : Hooks Written → Hooks Written
unfolding say around_body before around_step after_step after before_all after_all
register_showcase_hooks hs0 =
    let hs1 = before_all (say (codes "-------------------- (Before all scenarios)")) hs0 in
    let hs2 = after_all (say (codes "-------------------- (After all scenarios)")) hs1 in
    let hs3 = before [] (say (codes "-------------------- (Before any scenario)")) hs2 in
    let hs4 =
      before (codes "\"@foo,@bar\", \"@baz\"")
        (say (codes "Before scenario (\"@foo,@baz\",\"@bar\")")) hs3 in
    let hs5 = around_step (codes "\"@baz\"") around_body hs4 in
    let hs6 = after_step (codes "\"@bar\"") (say (codes "After step (\"@bar\")")) hs5 in
    let hs7 = after (codes "\"@foo\"") (say (codes "After scenario (\"@foo\")")) hs6 in
    after (codes "\"@gherkin\"") (say (codes "After scenario (\"@gherkin\")")) hs7

-- The two steps; `EXPECT_TRUE(true)` does nothing, and every text is a string.
unfoldable pub not_tagged : List Text → StepBody Written
unfolding print
not_tagged args = update (print (codes "Running step from scenario without tags")) finish

unfoldable pub tagged_with : List Text → StepBody Written
unfolding regex_param print
tagged_with args =
    regex_param (λ arg. true)
      λ tags. update (print (codes "Running step from scenario with tags: " ++ tags)) finish

unfoldable pub register_showcase_steps :
    RegexEngine → TypeMap → Text → Registry Written → Result (Registry Written)
register_showcase_steps engine types file m = do
  (m1, id1) ←
      cuke_step engine types gtest file 49 (codes "^I'm running a step from a scenario not tagged$")
        no_types not_tagged m
  (m2, id2) ←
      cuke_step engine types gtest file 54
        (codes "^I'm running a step from a scenario tagged with (.*)$") no_types tagged_with m1
  ok m2
