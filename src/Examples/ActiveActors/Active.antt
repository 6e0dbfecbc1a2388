-- ===== src/Examples/ActiveActors/Active.antt =====
-- The step with the table, as it is invoked.
use cucumber_cpp.Base.{ℕ, ◌≡◌, ◌∙◌, refl, ap, none, List, [], Text, or_else, All}
use cucumber_cpp.Commands.{World}
use cucumber_cpp.Step.Body.{InvokeArgs, success_result, run_body}
use cucumber_cpp.Step.Drivers.{gtest}
use cucumber_cpp.Step.Invoke.{invoke}
use cucumber_cpp.Macros.{table_param}
use cucumber_cpp.Examples.Scoped.Object.{current}
use cucumber_cpp.Examples.Scoped.Invocation.{ending, Invokes, Invokes-run_body}
use cucumber_cpp.Examples.ActiveActors.{Actors}
use cucumber_cpp.Examples.ActiveActors.Steps.{Platform, add_actors, actors_are_active}
use cucumber_cpp.Examples.ActiveActors.Years.{
  Entry, IsEntry, year_of, last_year, rows_of, add_actors-year_of,
}

module _ (platform : Platform) (t : ℕ) where
  pub record Activates (entries : List (Entry platform)) (args : InvokeArgs)
      (w : World (ℕ → Actors)) : Type 0 where
    pub behind : World (ℕ → Actors)
    pub invoked : invoke gtest (actors_are_active platform t) args w ≡ (success_result, behind)
    pub years :
        (name : Text)
        → year_of name (current t [] behind)
          ≡ or_else (last_year platform name entries) (year_of name (current t [] w))
    pub held : behind.contexts.held ≡ w.contexts.held

  actors_are_active-Invokes :
      (args : InvokeArgs) (w : World (ℕ → Actors))
      → let done = add_actors platform args.table_arg.rows (current t [] w) in
        Invokes t [] (actors_are_active platform t) args w (ending done.1) done.0
  unfolding actors_are_active table_param run_body
  actors_are_active-Invokes args w =
      Invokes-run_body t [] (actors_are_active platform t) args 0 w
        (add_actors platform args.table_arg.rows) refl

  -- The step with a table whose rows have names and years succeeds, leaves no scope, and gives each
  -- name the year of its last row, while the other names keep the year that they have in the object
  -- of the scenario.
  pub actors_are_active-last_year :
      (entries : List (Entry platform)) (args : InvokeArgs) (w : World (ℕ → Actors))
      → All (IsEntry platform) entries
      → args.table_arg.rows ≡ rows_of platform entries
      → Activates entries args w
  actors_are_active-last_year entries args w good rows =
      let run = actors_are_active-Invokes args w in
      let (actors, added, years) = add_actors-year_of platform entries (current t [] w) good in
      let done : add_actors platform args.table_arg.rows (current t [] w) ≡ (actors, none) =
        rw rows added in
      record {
        behind = run.behind;
        invoked = run.invoked ∙ ap (λ d. (ending d.1, run.behind)) done;
        years = λ name. ap (year_of name) (run.uses.made ∙ ap (λ d. d.0) done) ∙ years name;
        held = run.uses.held;
      }
