-- ===== src/Examples/Showcase/Session.antt =====
-- What the showcase writes in a scenario.
use cucumber_cpp.Base.{
  ℕ, ◌≡◌, ◌∙◌, refl, ap, Bool, true, false, ◌&&◌, ◌||◌, Bool-cases, inl, inr, not, Option, none,
  some, List, [], ◌∷◌, ◌++◌, append_assoc, append-nil, Text, codes,
}
use cucumber_cpp.Step.Body.{InvokeArgs, success_result, returns}
use cucumber_cpp.Step.Invoke.{invoke}
use cucumber_cpp.Step.Manager.{StepInfo, Registry, get_step}
use cucumber_cpp.Tag.{no_tags, and_matches}
use cucumber_cpp.Hook.Registrar.{
  Scenario, tags_match, exec_before_hooks, exec_before_all_hooks, exec_after_hooks,
  exec_after_step_hooks,
}
use cucumber_cpp.Hook.Chain.{
  StepCallChain, exec_step_chain, exec_next, invoke_around, run_around, exec_step,
}
use cucumber_cpp.Commands
use cucumber_cpp.Commands.{
  World, CukeCommands, Outcome, Unit0, with_world, start, begin_scenario, end_scenario,
  close_scenario, after_chain,
}
use cucumber_cpp.Examples.Showcase.{Written, print, say, around_body}
use cucumber_cpp.Examples.Showcase.Lines.{lines_of, line_if, wrote, exec_hooks-rows}
use cucumber_cpp.Examples.Showcase.Tagged.{
  before_rows, after_step_rows, after_rows, showcase_hooks, has, tags_match-one, tags_match-two,
}

abbrev pub of_tags : List Text → Option Scenario
of_tags tags = some (record { tags = tags })

-- The lines, by the tags of the scenario.
abbrev pub begin_lines : Bool → List Text → List Text
begin_lines has_started tags =
    line_if (not has_started) (codes "-------------------- (Before all scenarios)")
    ++ codes "-------------------- (Before any scenario)"
      ∷ line_if ((has (codes "foo") tags || has (codes "bar") tags) && has (codes "baz") tags)
          (codes "Before scenario (\"@foo,@baz\",\"@bar\")")

abbrev pub step_lines : List Text → Text → List Text
step_lines tags line =
    line_if (has (codes "baz") tags) (codes "Around step (\"@baz\") ...before")
    ++ line
      ∷ (line_if (has (codes "baz") tags) (codes "Around step (\"@baz\") ..after")
          ++ line_if (has (codes "bar") tags) (codes "After step (\"@bar\")"))

abbrev pub end_lines : List Text → List Text
end_lines tags =
    line_if (has (codes "gherkin") tags) (codes "After scenario (\"@gherkin\")")
    ++ line_if (has (codes "foo") tags) (codes "After scenario (\"@foo\")")

-- A hook without tags is for every scenario.
tags_match-no_tags : (scenario : Option Scenario) → tags_match scenario no_tags ≡ true
unfolding tags_match and_matches
tags_match-no_tags none = refl
tags_match-no_tags (some scenario) = refl

before_rows_lines : (tags : List Text) → lines_of before_rows (of_tags tags) ≡ begin_lines true tags
before_rows_lines tags =
    rw
      (
        tags_match-no_tags (of_tags tags),
        tags_match-two (codes "foo") (codes "bar") (codes "baz") tags,
        append-nil,
      )
      refl

after_rows_lines : (tags : List Text) → lines_of after_rows (of_tags tags) ≡ end_lines tags
after_rows_lines tags =
    rw (tags_match-one (codes "gherkin") tags, tags_match-one (codes "foo") tags, append-nil) refl

after_step_rows_lines :
    (tags : List Text)
    → lines_of after_step_rows (of_tags tags)
      ≡ line_if (has (codes "bar") tags) (codes "After step (\"@bar\")")
after_step_rows_lines tags = rw (tags_match-one (codes "bar") tags, append-nil) refl

exec_before_hooks_lines :
    (tags : List Text) (w : Written)
    → exec_before_hooks showcase_hooks (of_tags tags) w ≡ returns (wrote (begin_lines true tags) w)
unfolding exec_before_hooks
exec_before_hooks_lines tags w =
    exec_hooks-rows before_rows (of_tags tags) w
    ∙ ap (λ lines. returns (wrote lines w)) (before_rows_lines tags)

exec_before_all_hooks_lines :
    (w : Written)
    → exec_before_all_hooks showcase_hooks w
      ≡ returns (wrote (codes "-------------------- (Before all scenarios)" ∷ []) w)
unfolding exec_before_all_hooks say print
exec_before_all_hooks_lines w = refl

exec_after_hooks_lines :
    (tags : List Text) (w : Written)
    → exec_after_hooks showcase_hooks (of_tags tags) w ≡ returns (wrote (end_lines tags) w)
unfolding exec_after_hooks
exec_after_hooks_lines tags w =
    exec_hooks-rows after_rows (of_tags tags) w
    ∙ ap (λ lines. returns (wrote lines w)) (after_rows_lines tags)

-- The state behind the begin of a scenario.
abbrev pub begun : List Text → CukeCommands (List Text) → CukeCommands (List Text)
begun tags c = record c {
  has_started = true;
  current_scenario = of_tags tags;
  world = wrote (begin_lines c.has_started tags) c.world;
}

pub begin_scenario_lines :
    (tags : List Text) (c : CukeCommands (List Text))
    → begin_scenario showcase_hooks tags c ≡ Outcome.done tt (begun tags c)
unfolding begin_scenario
begin_scenario_lines tags c =
    elim c.has_started
      as (λ b.
        let c1 : CukeCommands (List Text) = record c { has_started = b } in
        begin_scenario showcase_hooks tags c1 ≡ Outcome.done tt (begun tags c1)) [
          | true ↦ rw (exec_before_hooks_lines tags) refl
          | false ↦
              rw (exec_before_all_hooks_lines c.world, exec_before_hooks_lines tags)
                (ap
                  (λ lines. Outcome.done tt (record c {
                    has_started = true;
                    current_scenario = of_tags tags;
                    world = record c.world { user = lines };
                  }))
                  (append_assoc c.world.user
                    (codes "-------------------- (Before all scenarios)" ∷ [])
                    (begin_lines true tags)))
        ]

pub end_scenario_lines :
    (tags : List Text) (c : CukeCommands (List Text))
    → c.current_scenario ≡ of_tags tags
    → end_scenario showcase_hooks c
      ≡ Outcome.done tt (close_scenario (with_world c (wrote (end_lines tags) c.world)))
unfolding end_scenario
end_scenario_lines tags c e = rw (e, exec_after_hooks_lines tags c.world) refl

-- A step that writes a line and succeeds.
abbrev pub Says : StepInfo Written → InvokeArgs → Text → Type 0
Says s a line = (w : Written) → invoke s.driver s.body a w ≡ (success_result, wrote (line ∷ []) w)

abbrev around_lines : Bool → Text → List Text
around_lines baz line =
    line_if baz (codes "Around step (\"@baz\") ...before")
    ++ line ∷ line_if baz (codes "Around step (\"@baz\") ..after")

abbrev ran : List Text → Written → StepCallChain Written
ran lines w = record { next_hooks = []; result = success_result; store = wrote lines w }

abbrev ran_with : List Text → Written → StepCallChain Written
ran_with lines w = record {
  next_hooks = [];
  result = success_result;
  store = record w { user = lines };
}

chain_lines :
    (s : StepInfo Written) (a : InvokeArgs) (line : Text)
    → Says s a line
    → (tags : List Text) (w : Written)
    → exec_step_chain (of_tags tags) (some s) a showcase_hooks.around_step_hooks w
      ≡ some (returns (ran (around_lines (has (codes "baz") tags) line) w))
unfolding exec_step_chain exec_next invoke_around run_around exec_step around_body print
chain_lines s a line says tags w =
    let matched = tags_match-one (codes "baz") tags in
    elim (Bool-cases (has (codes "baz") tags)) [
      | inl e ↦
          rw (e, matched ∙ e, says)
            (ap (λ lines. some (returns (ran_with lines w)))
              (append_assoc (w.user ++ codes "Around step (\"@baz\") ...before" ∷ []) (line ∷ []) _
                ∙ append_assoc w.user _ _))
      | inr e ↦ rw (e, matched ∙ e, says) refl
    ]

exec_after_step_hooks_lines :
    (tags : List Text) (w : Written)
    → exec_after_step_hooks showcase_hooks (of_tags tags) w
      ≡ returns (wrote (line_if (has (codes "bar") tags) (codes "After step (\"@bar\")")) w)
unfolding exec_after_step_hooks
exec_after_step_hooks_lines tags w =
    exec_hooks-rows after_step_rows (of_tags tags) w
    ∙ ap (λ lines. returns (wrote lines w)) (after_step_rows_lines tags)

step_lines_split :
    (tags : List Text) (line : Text)
    → around_lines (has (codes "baz") tags) line
        ++ line_if (has (codes "bar") tags) (codes "After step (\"@bar\")")
      ≡ step_lines tags line
step_lines_split tags line = append_assoc (line_if (has (codes "baz") tags) _) _ _

after_chain_lines :
    (tags lines : List Text) (c : CukeCommands (List Text))
    → c.current_scenario ≡ of_tags tags
    → after_chain showcase_hooks c (returns (ran lines c.world))
      ≡ Outcome.done success_result (
          with_world c (
            wrote
              (line_if (has (codes "bar") tags) (codes "After step (\"@bar\")"))
              (wrote lines c.world)))
after_chain_lines tags lines c e = rw (e, exec_after_step_hooks_lines tags) refl

pub invoke_lines :
    (registry : Registry Written) (id : ℕ) (s : StepInfo Written) (a : InvokeArgs) (line : Text)
    → get_step id registry.steps ≡ some s
    → Says s a line
    → (tags : List Text) (c : CukeCommands (List Text)) → c.current_scenario ≡ of_tags tags
    → Commands.invoke showcase_hooks registry id a c
      ≡ some (Outcome.done success_result (with_world c (wrote (step_lines tags line) c.world)))
unfolding Commands.invoke
invoke_lines registry id s a line found says tags c e =
    let around = around_lines (has (codes "baz") tags) line in
    let chain : exec_step_chain c.current_scenario (get_step id registry.steps) a
          showcase_hooks.around_step_hooks c.world
        ≡ some (returns (ran around c.world)) =
      rw (e, found) (chain_lines s a line says tags c.world) in
    ap (λ x. elim x [ none ↦ none | some exit ↦ some (after_chain showcase_hooks c exit) ]) chain
    ∙ ap some (after_chain_lines tags around c e)
    ∙ ap
        (λ lines.
          some (Outcome.done success_result (with_world c (record c.world { user = lines }))))
        (append_assoc c.world.user _ _
          ∙ ap (λ lines. c.world.user ++ lines) (step_lines_split tags line))
