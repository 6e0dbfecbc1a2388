-- ===== src/Examples/Scoped.antt =====
-- include/cucumber-cpp/internal/ContextManager.hpp as a step definition uses it: the body makes a
-- `ScenarioScope<T>`, works on the object behind `->`, and leaves the scope. The objects of type
-- `T` are a function of their numbers, and a number stands for the type.
pub mod Object
pub mod Invocation
use cucumber_cpp.Base.{
  ℕ, ◌≡◌, refl, Bool, true, false, Option, none, some, List, [], ◌∷◌, ◌++◌, ◌==◌, if◌then◌else◌,
  Text,
}
use cucumber_cpp.Context.{Contexts, expired, scenario_scope, release_scope}
use cucumber_cpp.Commands.{World}
use cucumber_cpp.Step.Body.{Thrown, runtime_error, StepBody, finish, raise, update, inspect}

-- GoogleTest throws the text of a failed check as a runtime error.
abbrev pub failed : Option Text → Option Thrown
failed none = none
failed (some what) = some (runtime_error what)

module _ {A : Type 0} where
  -- `make_shared<T>()`: a new object has the value of `T()`.
  unfoldable pub store_object : ℕ → A → (ℕ → A) → ℕ → A
  store_object o x objects p = if p == o then x else objects p

  module _ (t : ℕ) (fresh : A) where
    -- The objects behind the constructor of a `ScenarioScope<T>`.
    unfoldable pub make_object : World (ℕ → A) → ℕ → A
    unfolding store_object expired
    make_object w =
        if expired w.contexts (w.contexts.references t)
        then store_object w.contexts.next_object fresh w.user
        else w.user

    unfoldable pub enter_scope : World (ℕ → A) → World (ℕ → A) × Option ℕ
    unfolding make_object scenario_scope
    enter_scope w =
        let (c, o) = scenario_scope t w.contexts in
        (record { contexts = c; user = make_object w }, o)

    unfoldable pub leave_scope : ℕ → World (ℕ → A) → World (ℕ → A)
    unfolding release_scope
    leave_scope o w = record w { contexts = release_scope o w.contexts }

    abbrev pub end_body : Option Thrown → StepBody (World (ℕ → A))
    end_body none = finish
    end_body (some thrown) = raise thrown

    -- The rest of a body behind the declaration of its scope: what is done to the object, and an
    -- exception, which leaves the scope too.
    unfoldable pub use_object : (A → A × Option Thrown) → Option ℕ → StepBody (World (ℕ → A))
    unfolding leave_scope store_object
    use_object action none = finish
    use_object action (some o) = inspect λ w.
        let (x, thrown) = action (w.user o) in
        update (λ w'. leave_scope o (record w' { user = store_object o x w'.user }))
          (end_body thrown)

    unfoldable pub within_scope : (A → A × Option Thrown) → StepBody (World (ℕ → A))
    unfolding enter_scope use_object
    within_scope action =
        inspect λ w. let (w', o) = enter_scope w in update (λ v. w') (use_object action o)
