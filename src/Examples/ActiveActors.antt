-- ===== src/Examples/ActiveActors.antt =====
-- examples/FeatureShowcase/features/step_definitions/TableSteps.cpp: `ActiveActors`, a map from
-- names to years that is ordered by name.
pub mod Steps
pub mod Years
pub mod Active
mod Tests
use cucumber_cpp.Base.{
  ℕ, ◌≤◌, ◌≡◌, ◌⊎◌, inl, inr, refl, Bool, true, false, Option, none, some, List, [], ◌∷◌, ◌==◌,
  if◌then◌else◌, if_cases, ltb, ltb→lt, Text, arith,
}

-- `operator<` and `operator==` of `std::string`.
unfoldable pub less : Text → Text → Bool
less s [] = false
less [] (d ∷ t) = true
less (c ∷ s) (d ∷ t) =
    let rest = less s t in if ltb c d then true else if c == d then rest else false

unfoldable pub same : Text → Text → Bool
same [] [] = true
same [] (d ∷ t) = false
same (c ∷ s) [] = false
same (c ∷ s) (d ∷ t) = let rest = same s t in if c == d then rest else false

abbrev pub Actors : Type 0
Actors = List (Text × ℕ)

-- `actors[name] = year`.
unfoldable pub add_actor : Text → ℕ → Actors → Actors
unfolding less same
add_actor name year [] = (name, year) ∷ []
add_actor name year ((n, y) ∷ actors) =
    let rest = add_actor name year actors in
    if same name n
    then (n, year) ∷ actors
    else if less name n
    then (name, year) ∷ (n, y) ∷ actors
    else (n, y) ∷ rest

-- `erase(find(name))`; `none` is undefined, as an unknown name is.
unfoldable pub retire_actor : Text → Actors → Option Actors
unfolding same
retire_actor name [] = none
retire_actor name ((n, y) ∷ actors) =
    let rest : Option Actors = elim (retire_actor name actors) [
      | none ↦ none
      | some kept ↦ some ((n, y) ∷ kept)
    ] in
    if same name n then some actors else rest

-- The loop of `getOldestActor`: `year` stays that of the first actor.
unfoldable pub oldest_from : Text → ℕ → Actors → Text
oldest_from name year [] = name
oldest_from name year ((n, current_year) ∷ actors) =
    oldest_from (if ltb current_year year then n else name) year actors

-- `none` is undefined, as the first actor of none is.
unfoldable pub get_oldest_actor : Actors → Option Text
unfolding oldest_from
get_oldest_actor [] = none
get_oldest_actor ((n, y) ∷ actors) = some (oldest_from n y actors)

-- An actor of a year.
abbrev pub Has : Actors → Text → ℕ → Type 0
Has [] name year = ⊥
Has ((n, y) ∷ actors) name year = ((n ≡ name) × (y ≡ year)) ⊎ Has actors name year

-- The actor, or one of the others, is born in the year or before.
abbrev Found : Text → ℕ → Actors → Text → Type 0
Found name year actors result = (name ≡ result) ⊎ ((y : ℕ) × Has actors result y × (y ≤ year))

oldest_from-Found :
    (name : Text) (year : ℕ) (actors : Actors)
    → Found name year actors (oldest_from name year actors)
unfolding oldest_from
oldest_from-Found name year [] = inl refl
oldest_from-Found name year ((n, y) ∷ actors) =
    let newer = oldest_from-Found n year actors in
    let older = oldest_from-Found name year actors in
    if_cases (λ x. Found name year ((n, y) ∷ actors) (oldest_from x year actors)) (ltb y year)
      (λ before. elim newer [
        | inl e ↦ inr (y, inl (e, refl), omega (arith, ltb→lt y year before))
        | inr (z, has, le) ↦ inr (z, inr has, le)
      ])
      (λ later. elim older [ inl e ↦ inl e | inr (z, has, le) ↦ inr (z, inr has, le) ])

-- The actor that is told is one of the actors, and no younger than the first one in the order of
-- names.
pub get_oldest_actor-Has :
    (name : Text) (year : ℕ) (actors : Actors)
    → (result : Text) × (z : ℕ) × (get_oldest_actor ((name, year) ∷ actors) ≡ some result)
      × Has ((name, year) ∷ actors) result z
      × (z ≤ year)
unfolding get_oldest_actor
get_oldest_actor-Has name year actors = elim (oldest_from-Found name year actors) [
  | inl e ↦ (oldest_from name year actors, year, refl, inl (e, refl), omega arith)
  | inr (z, has, le) ↦ (oldest_from name year actors, z, refl, inr has, le)
]
