-- ===== src/Commands.antt =====
-- src/CukeCommands.cpp and include/cucumber-cpp/internal/CukeCommands.hpp. The program's state is
-- the state `U` of user code beside the contexts.
pub mod Snippet
pub mod Literal
pub mod Lifecycle
mod Tests
use cucumber_cpp.Base.{Bool, true, false, Option, none, some, List, [], ℕ, if◌then◌else◌, Text}
use cucumber_cpp.Context.{Contexts, purge_contexts}
use cucumber_cpp.Regex.{RegexEngine}
use cucumber_cpp.Step.Body.{InvokeArgs, InvokeResult, Thrown, Exit, returns, throws}
use cucumber_cpp.Step.Manager.{StepInfo, SingleStepMatch, Registry, get_step, step_matches}
use cucumber_cpp.Hook.Registrar.{
  Scenario, Hooks, exec_before_hooks, exec_after_step_hooks, exec_after_hooks,
  exec_before_all_hooks, exec_after_all_hooks,
}
use cucumber_cpp.Hook.Chain.{StepCallChain, exec_step_chain}

-- What hooks and steps can change.
pub record World (U : Type 0) : Type 0 where
  pub contexts : Contexts
  pub user : U

-- The fields of `CukeCommands`, its static scenario, and the world.
pub record CukeCommands (U : Type 0) : Type 0 where
  pub has_started : Bool
  pub current_scenario : Option Scenario
  pub world : World U

-- A command that returned a value, or let an exception out.
pub data Outcome (U A : Type 0) : Type 0 where
  done : A → CukeCommands U → Outcome U A
  escaped : Thrown → CukeCommands U → Outcome U A

abbrev pub Unit0 : Type 0
Unit0 = Unit

module _ {U : Type 0} where
  abbrev pub with_world : CukeCommands U → World U → CukeCommands U
  with_world c w = record c { world = w }

  -- A row of hooks is run, and the command goes on if none throws.
  abbrev pub after_hooks_run :
      CukeCommands U → Exit (World U) → (CukeCommands U → Outcome U Unit0) → Outcome U Unit0
  after_hooks_run c (returns w) k = k (with_world c w)
  after_hooks_run c (throws t w) k = escaped t (with_world c w)

  -- `purgeContexts` and `reset`.
  unfoldable pub close_scenario : CukeCommands U → CukeCommands U
  close_scenario c = record c {
    current_scenario = none;
    world = record c.world { contexts = purge_contexts c.world.contexts };
  }

  -- The rest of `invoke`, behind the chain: the result stands unless a hook throws.
  abbrev pub invoked : InvokeResult → CukeCommands U → Exit (World U) → Outcome U InvokeResult
  invoked result c (returns w) = done result (with_world c w)
  invoked result c (throws t w) = escaped t (with_world c w)

  module _ (hooks : Hooks (World U)) where
    -- `if (!hasStarted)`.
    unfoldable pub start : CukeCommands U → (CukeCommands U → Outcome U Unit0) → Outcome U Unit0
    start c k =
        if c.has_started
        then k c
        else (let c' = record c { has_started = true } in
            after_hooks_run c' (exec_before_all_hooks hooks c'.world) k)

    unfoldable pub begin_scenario : List Text → CukeCommands U → Outcome U Unit0
    unfolding start
    begin_scenario tags c = start c λ c'.
        let scenario : Scenario = record { tags = tags } in
        let begun = record c' { current_scenario = some scenario } in
        after_hooks_run begun (exec_before_hooks hooks (some scenario) begun.world) (done tt)

    unfoldable pub end_scenario : CukeCommands U → Outcome U Unit0
    unfolding close_scenario
    end_scenario c =
        after_hooks_run c (exec_after_hooks hooks c.current_scenario c.world)
          λ c'. done tt (close_scenario c')

    -- `~CukeCommands`.
    unfoldable pub destroy : CukeCommands U → Outcome U Unit0
    destroy c =
        if c.has_started
        then after_hooks_run c (exec_after_all_hooks hooks c.world) (done tt)
        else done tt c

    abbrev pub after_chain :
        CukeCommands U → Exit (StepCallChain (World U)) → Outcome U InvokeResult
    after_chain c (returns chain) =
        invoked chain.result (with_world c chain.store)
          (exec_after_step_hooks hooks c.current_scenario chain.store)
    after_chain c (throws t chain) = escaped t (with_world c chain.store)

    -- `none` is a chain whose fuel ran out.
    unfoldable pub invoke :
        Registry (World U) → ℕ → InvokeArgs → CukeCommands U → Option (Outcome U InvokeResult)
    invoke registry id args c =
        elim (exec_step_chain c.current_scenario (get_step id registry.steps) args
          hooks.around_step_hooks c.world) [ none ↦ none | some exit ↦ some (after_chain c exit) ]

-- `CukeCommands()` before any scenario.
abbrev pub initial : {U : Type 0} → World U → CukeCommands U
initial w = record { has_started = false; current_scenario = none; world = w }

-- `CukeCommands::stepMatches`.
abbrev pub commands_step_matches :
    {U : Type 0} → RegexEngine → Registry (World U) → Text → List (SingleStepMatch (World U))
commands_step_matches engine registry description = step_matches engine description registry.steps
