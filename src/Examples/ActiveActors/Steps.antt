-- ===== src/Examples/ActiveActors/Steps.antt =====
-- The step definitions of TableSteps.cpp, under GoogleTest.
use cucumber_cpp.Base.{ℕ, true, Option, none, some, List, [], ◌∷◌, Text, codes, lookup}
use cucumber_cpp.Table.{HashRow, hashes}
use cucumber_cpp.Commands.{World}
use cucumber_cpp.Step.Body.{Thrown, other_exception, StepBody}
use cucumber_cpp.Macros.{regex_param, table_param}
use cucumber_cpp.Examples.Scoped.{failed, within_scope}
use cucumber_cpp.Examples.ActiveActors.{Actors, add_actor, retire_actor, get_oldest_actor}

-- What the steps use besides: `fromString<unsigned short>`; the text of the exception of `map::at`;
-- the text of the failure that `ASSERT_EQ` throws, if the texts differ; and what is done where the
-- code is undefined, which is an erase of no actor and the oldest of none.
pub record Platform : Type 0 where
  pub to_year : Text → Option ℕ
  pub no_key : Text
  pub assert_eq : Text → Text → Option Text
  pub undefined : Actors → Actors × Option Thrown

module _ (platform : Platform) where
  abbrev pub or_no_key :
      Option Text → Actors → (Text → Actors × Option Thrown) → Actors × Option Thrown
  or_no_key none actors next = (actors, some (other_exception platform.no_key))
  or_no_key (some value) actors next = next value

  abbrev pub or_no_year : Option ℕ → Actors → (ℕ → Actors × Option Thrown) → Actors × Option Thrown
  or_no_year none actors next = (actors, some (other_exception (codes "Cannot convert parameter")))
  or_no_year (some year) actors next = next year

  -- The loop over the rows of the table.
  unfoldable pub add_actors : List HashRow → Actors → Actors × Option Thrown
  unfolding lookup add_actor
  add_actors [] actors = (actors, none)
  add_actors (row ∷ rows) actors = or_no_key (lookup (codes "name") row) actors λ name.
      or_no_key (lookup (codes "born") row) actors λ year_string.
        or_no_year (platform.to_year year_string) actors
          λ year. add_actors rows (add_actor name year actors)

  unfoldable pub retire : Text → Actors → Actors × Option Thrown
  unfolding retire_actor
  retire name actors = elim (retire_actor name actors) [
    | none ↦ platform.undefined actors
    | some kept ↦ (kept, none)
  ]

  unfoldable pub check_oldest : Text → Actors → Actors × Option Thrown
  unfolding get_oldest_actor
  check_oldest expected actors = elim (get_oldest_actor actors) [
    | none ↦ platform.undefined actors
    | some name ↦ (actors, failed (platform.assert_eq expected name))
  ]

  -- The bodies; `t` stands for `ActiveActors`.
  module _ (t : ℕ) where
    unfoldable pub actors_are_active : StepBody (World (ℕ → Actors))
    unfolding table_param within_scope add_actors
    actors_are_active = table_param λ table. within_scope t [] (add_actors (hashes table))

    unfoldable pub actor_retires : StepBody (World (ℕ → Actors))
    unfolding regex_param within_scope retire
    actor_retires = regex_param (λ arg. true) λ name. within_scope t [] (retire name)

    unfoldable pub oldest_should_be : StepBody (World (ℕ → Actors))
    unfolding regex_param within_scope check_oldest
    oldest_should_be =
        regex_param (λ arg. true) λ expected. within_scope t [] (check_oldest expected)
