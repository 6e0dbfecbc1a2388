-- ===== src/Commands/Lifecycle.antt =====
-- The scenario of `CukeCommands` and its contexts, from begin to end.
use cucumber_cpp.Base.{◌≡◌, refl, true, false, none, some, List, [], Text, if_cases}
use cucumber_cpp.Context.{purge_contexts}
use cucumber_cpp.Step.Body.{Thrown, Exit, returns, throws}
use cucumber_cpp.Hook.Registrar.{
  Scenario, Hooks, exec_before_hooks, exec_after_hooks, exec_before_all_hooks,
}
use cucumber_cpp.Commands.{
  World, CukeCommands, Outcome, Unit0, after_hooks_run, with_world, begin_scenario, close_scenario,
  end_scenario,
}

module _ {U : Type 0} (hooks : Hooks (World U)) where
  -- Behind the beginning of a scenario: the program has started, and the scenario has the tags,
  -- unless a hook of the whole program threw.
  pub data Begun (tags : List Text) (before : CukeCommands U) : Outcome U Unit0 → Type 0 where
    in_scenario :
        (c : CukeCommands U)
        → c.has_started ≡ true
        → c.current_scenario ≡ some (record { tags = tags })
        → Begun tags before (Outcome.done tt c)
    hook_threw :
        (t : Thrown) (c : CukeCommands U)
        → c.has_started ≡ true
        → c.current_scenario ≡ some (record { tags = tags })
        → Begun tags before (Outcome.escaped t c)
    start_threw :
        (t : Thrown) (c : CukeCommands U)
        → before.has_started ≡ false
        → c.has_started ≡ true
        → c.current_scenario ≡ before.current_scenario
        → Begun tags before (Outcome.escaped t c)

  -- Behind the end of a scenario: no scenario and no context is left, or, when a hook threw, the
  -- scenario is still the current one.
  pub data Ended (before : CukeCommands U) : Outcome U Unit0 → Type 0 where
    closed :
        (c : CukeCommands U)
        → c.current_scenario ≡ none
        → c.world.contexts.contexts ≡ []
        → c.has_started ≡ before.has_started
        → Ended before (Outcome.done tt c)
    left_open :
        (t : Thrown) (w : World U)
        → exec_after_hooks hooks before.current_scenario before.world ≡ throws t w
        → Ended before (Outcome.escaped t (with_world before w))

  -- `endScenario` leaves no scenario and no context; but if an after hook throws, it throws the
  -- same, and scenario and contexts stay as the hooks left them.
  pub end_scenario-Ended : (c : CukeCommands U) → Ended c (end_scenario hooks c)
  unfolding end_scenario close_scenario purge_contexts
  end_scenario-Ended c = ran (exec_after_hooks hooks c.current_scenario c.world) refl
    where
      ran :
          (e : Exit (World U))
          → exec_after_hooks hooks c.current_scenario c.world ≡ e
          → Ended c (after_hooks_run c e λ c'. Outcome.done tt (close_scenario c'))
      ran (returns w) h = closed _ refl refl refl
      ran (throws t w) h = left_open t w h

  -- Behind `beginScenario` the program has started and the scenario with the given tags is the
  -- current one, whether its before hooks return or throw; only if the program had not started and
  -- a before-all hook threw, the current scenario is the one before.
  pub begin_scenario-Begun :
      (tags : List Text) (c : CukeCommands U) → Begun tags c (begin_scenario hooks tags c)
  unfolding begin_scenario
  begin_scenario-Begun tags c =
      if_cases (Begun tags c) c.has_started
        (λ started. before_hooks c started (exec_before_hooks hooks (some scenario) c.world))
        (λ fresh. all_hooks fresh (exec_before_all_hooks hooks c.world))
    where
      scenario : Scenario
      scenario = record { tags = tags }

      before_hooks :
          (d : CukeCommands U)
          → d.has_started ≡ true
          → (e : Exit (World U))
          → Begun tags c
              (after_hooks_run (record d { current_scenario = some scenario }) e (Outcome.done tt))
      before_hooks d started (returns w) = in_scenario _ started refl
      before_hooks d started (throws t w) = hook_threw t _ started refl

      all_hooks :
          c.has_started ≡ false
          → (e : Exit (World U))
          → Begun tags c (
              after_hooks_run
                (record c { has_started = true })
                e
                λ c'.
                  let begun = record c' { current_scenario = some scenario } in
                  after_hooks_run begun
                    (exec_before_hooks hooks (some scenario) begun.world)
                    (Outcome.done tt))
      all_hooks fresh (returns w) =
          before_hooks (record c { has_started = true; world = w }) refl
            (exec_before_hooks hooks (some scenario) w)
      all_hooks fresh (throws t w) = start_threw t _ fresh refl refl
