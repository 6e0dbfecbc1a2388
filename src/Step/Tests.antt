-- ===== src/Step/Tests.antt =====
-- Two registered steps, and bodies that call `pending` and throw.
use cucumber_cpp.Base.{
  ℕ, ◌≡◌, ◌↔◌, refl, arith, true, none, some, List, [], ◌∷◌, ◌==◌, if◌then◌else◌, codes,
}
use cucumber_cpp.Expression.Error.{ok}
use cucumber_cpp.Regex.{RegexEngine, matched}
use cucumber_cpp.Step.Body.{
  returns, throws, no_args, is_success, is_pending, runtime_error, StepBody, finish, raise, update,
  set_pending, run_body,
}
use cucumber_cpp.Step.Drivers.{Driver, generic, gtest, boost, entry_value, exception_start}
use cucumber_cpp.Step.Invoke.{invoke}
use cucumber_cpp.Step.Manager.{StepInfo, get_regex_string, Registry, register_step}
use cucumber_cpp.Step.Outcome.{
  started, EndsPlain, EndsPending, invoke-is_success, invoke-is_pending,
}
use cucumber_cpp.Step.Registration.{IsRegistry, Registers, made, register_step-Registers}
use cucumber_cpp.Step.Registry.{IsAscending}

abbrev step : ℕ → StepBody ℕ → StepInfo ℕ
step id body = record {
  id = id;
  regex = codes "x";
  source = codes "x.cpp:1";
  step_def = codes "x";
  driver = generic;
  body = body;
}

abbrev plain : StepBody ℕ
plain = update (λ n. 5) finish

-- `pending("later"); throw std::runtime_error("no");`
abbrev giving_up : StepBody ℕ
giving_up = set_pending (some (codes "later")) (raise (runtime_error (codes "no")))

abbrev steps : List (StepInfo ℕ)
steps = step 1 plain ∷ step 4 giving_up ∷ []

steps-IsAscending : IsAscending steps
steps-IsAscending = ((omega arith, tt), (tt, tt))

-- An engine whose patterns all compile, and match themselves.
abbrev engine : RegexEngine
engine = record {
  regex_error = λ r. none;
  regex_search = λ r s. some (matched 0 s ∷ []);
  regex_tokens = λ r s. [];
}

kept : get_regex_string engine [] (codes "^x$") ≡ ok (codes "^x$")
unfolding get_regex_string
kept = refl

-- A Boost step whose run writes one entry unless the state is 5.
abbrev checks : Driver ℕ
checks =
    boost
      (λ e. elim e [
        | returns r ↦ if r.store == 5 then [] else entry_value (codes "check failed") ∷ []
        | throws t r ↦ exception_start t ∷ []
      ])
      (record { description = codes "old" })

invoke-is_success_example :
    (is_success (invoke checks plain no_args 0).0 ≡ true)
    ↔ EndsPlain checks (run_body plain (started no_args 0))
invoke-is_success_example = invoke-is_success checks plain no_args 0

invoke-is_pending_example :
    (is_pending (invoke gtest giving_up no_args 0).0 ≡ true)
    ↔ EndsPending gtest (run_body giving_up (started no_args 0))
invoke-is_pending_example = invoke-is_pending gtest giving_up no_args 0

abbrev registry : Registry ℕ
registry = record { current_id = 4; steps = steps }

registry-IsRegistry : IsRegistry registry
registry-IsRegistry = record {
  ascending = steps-IsAscending;
  counted = (omega arith, (omega arith, tt));
}

register_step-Registers_example :
    let s =
      made engine [] generic plain (codes "^x$") (codes "^x$") (codes "src/x.cpp") 7 registry in
    (m' : Registry ℕ) × (register_step engine []
        (codes "^x$")
        (codes "src/x.cpp")
        7
        generic
        plain
        registry
      ≡ ok (m', s.id))
    × (s.id ≡ 5)
    × Registers s registry m'
register_step-Registers_example =
    register_step-Registers engine [] generic plain (codes "^x$") (codes "^x$") (codes "src/x.cpp")
      7 registry kept (omega arith) registry-IsRegistry
