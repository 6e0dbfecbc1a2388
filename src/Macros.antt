-- ===== src/Macros.antt =====
-- include/cucumber-cpp/internal/RegistrationMacros.hpp, step/StepMacros.hpp and
-- hook/HookMacros.hpp, with the calls of arguments in step/StepManager.hpp: what the macros expand
-- to. The preprocessor is not modelled: a macro for a hook has its arguments as the text that
-- `#__VA_ARGS__` gives, and a macro for a step has its file and line.
pub mod Arguments
pub mod Tags
pub mod Registration
mod Tests
use cucumber_cpp.Base.{ℕ, zero, suc, Bool, false, ◌==◌, if◌then◌else◌, List, [], ◌∷◌, length, Text}
use cucumber_cpp.Table.{Table}
use cucumber_cpp.Expression.Error.{Result}
use cucumber_cpp.Expression.Types.{TypeMap}
use cucumber_cpp.Regex.{RegexEngine}
use cucumber_cpp.Step.Body.{Exit, StepBody, next_arg, arg_at, set_arg_index, get_table_arg}
use cucumber_cpp.Step.Drivers.{Driver}
use cucumber_cpp.Step.Manager.{Registry, register_step}
use cucumber_cpp.Hook.Registrar.{
  AroundBody, Hooks, register_before_hook, register_around_step_hook, register_after_step_hook,
  register_after_hook, register_before_all_hook, register_after_all_hook,
}

-- The types of the arguments of a step, each by the texts that `fromString` converts; and the order
-- in which the program evaluates the calls for them, by their indices. C++ leaves it open.
pub record ArgTypes : Type 0 where
  pub converts : List (Text → Bool)
  pub order : List ℕ

-- With fewer than two arguments there is one order.
abbrev pub no_types : ArgTypes
no_types = record { converts = []; order = [] }

abbrev pub one_type : (Text → Bool) → ArgTypes
one_type converts = record { converts = converts ∷ []; order = 0 ∷ [] }

-- The type at an index; there is none behind the last one.
abbrev pub converts_at : List (Text → Bool) → ℕ → Text → Bool
converts_at [] i arg = false
converts_at (converts ∷ types) zero arg = converts arg
converts_at (converts ∷ types) (suc i) arg = converts_at types i arg

-- The values of the calls so far, by index, with one more; and the values of all, as a list.
abbrev pub bind_arg : ℕ → Text → (ℕ → Text) → ℕ → Text
bind_arg i arg bound j = if j == i then arg else bound j

abbrev pub args_from : ℕ → List (Text → Bool) → (ℕ → Text) → List Text
args_from n [] bound = []
args_from n (converts ∷ types) bound = bound n ∷ args_from (suc n) types bound

module _ {S : Type 0} where
  -- The calls of `getInvokeArg`, in their order, in front of the rest.
  unfoldable pub evaluate_args :
      List (Text → Bool) → List ℕ → (ℕ → Text) → ((ℕ → Text) → StepBody S) → StepBody S
  evaluate_args types [] bound f = f bound
  evaluate_args types (i ∷ order) bound f =
      arg_at (converts_at types i) i λ arg. evaluate_args types order (bind_arg i arg bound) f

  -- `invokeWithIndexedArgs`: all calls, and then the function on their values.
  unfoldable pub invoke_with_indexed_args : ArgTypes → (List Text → StepBody S) → StepBody S
  unfolding evaluate_args
  invoke_with_indexed_args types f =
      evaluate_args types.converts types.order (λ i. [])
        λ bound. f (args_from 0 types.converts bound)

  unfoldable pub invoke_with_args : ArgTypes → (List Text → StepBody S) → StepBody S
  unfolding invoke_with_indexed_args
  invoke_with_args types f =
      set_arg_index (length types.converts) (invoke_with_indexed_args types f)

  -- `REGEX_PARAM` and `TABLE_PARAM`, with the rest of the body.
  unfoldable pub regex_param : (Text → Bool) → (Text → StepBody S) → StepBody S
  regex_param converts rest = next_arg converts rest

  unfoldable pub table_param : (Table → StepBody S) → StepBody S
  table_param rest = get_table_arg rest

  -- `CUKE_OBJECT_` for a step: its `body()` calls `bodyWithArgs`.
  unfoldable pub cuke_object : ArgTypes → (List Text → StepBody S) → StepBody S
  unfolding invoke_with_args
  cuke_object = invoke_with_args

  -- `CUKE_STEP_`, and so `GIVEN`, `WHEN` and `THEN`.
  unfoldable pub cuke_step :
      RegexEngine
      → TypeMap
      → Driver S
      → Text
      → ℕ
      → Text
      → ArgTypes
      → (List Text → StepBody S)
      → Registry S
      → Result (Registry S × ℕ)
  unfolding register_step cuke_object
  cuke_step engine types driver file line step_matcher arg_types body_with_args =
      register_step engine types step_matcher file line driver
        (cuke_object arg_types body_with_args)

  unfoldable pub given :
      RegexEngine
      → TypeMap
      → Driver S
      → Text
      → ℕ
      → Text
      → ArgTypes
      → (List Text → StepBody S)
      → Registry S
      → Result (Registry S × ℕ)
  unfolding cuke_step
  given = cuke_step

  -- The six macros for hooks.
  unfoldable pub before : Text → (S → Exit S) → Hooks S → Hooks S
  unfolding register_before_hook
  before va_args body = register_before_hook va_args body

  unfoldable pub around_step : Text → AroundBody S → Hooks S → Hooks S
  unfolding register_around_step_hook
  around_step va_args body = register_around_step_hook va_args body

  unfoldable pub after_step : Text → (S → Exit S) → Hooks S → Hooks S
  unfolding register_after_step_hook
  after_step va_args body = register_after_step_hook va_args body

  unfoldable pub after : Text → (S → Exit S) → Hooks S → Hooks S
  unfolding register_after_hook
  after va_args body = register_after_hook va_args body

  unfoldable pub before_all : (S → Exit S) → Hooks S → Hooks S
  unfolding register_before_all_hook
  before_all body = register_before_all_hook body

  unfoldable pub after_all : (S → Exit S) → Hooks S → Hooks S
  unfolding register_after_all_hook
  after_all body = register_after_all_hook body
