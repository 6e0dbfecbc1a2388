-- ===== src/Hook/Tests.antt =====
-- Chains on a state that is the list of what has run.
use cucumber_cpp.Base.{◌*◌, ℕ, ◌≡◌, refl, true, Option, some, List, [], ◌∷◌, ◌++◌, codes}
use cucumber_cpp.Tag.{no_tags, and_matches}
use cucumber_cpp.Step.Body.{no_args, returns, StepBody}
use cucumber_cpp.Step.Drivers.{generic}
use cucumber_cpp.Step.Manager.{StepInfo}
use cucumber_cpp.Hook.Registrar.{
  Scenario, finish, raise, update, call_step, AroundStepHook, tags_match,
}
use cucumber_cpp.Step.Body.{throws, unknown_object}
use cucumber_cpp.Hook.Registrar.{Hooks, and_then, exec_before_hooks, register_before_hook}
use cucumber_cpp.Hook.Sequence.{
  Registered, register_all, run_forward, exec_before_hooks-register_all,
}
use cucumber_cpp.Hook.Chain.{exec_step_chain}
use cucumber_cpp.Hook.Chain.Total.{EndsWithin, exec_step_chain-EndsWithin}
use cucumber_cpp.Hook.Chain.Order.{Wrapper, wrap_all, outcome, exec_step_chain-wrap_all}

abbrev Log : Type 0
Log = List ℕ

abbrev mark : ℕ → Log → Log
mark n log = log ++ n ∷ []

abbrev step : StepInfo Log
step = record {
  id = 1;
  regex = codes "x";
  source = codes "x.cpp:1";
  step_def = codes "x";
  driver = generic;
  body = StepBody.update (mark 0) StepBody.finish;
}

abbrev around : ℕ → Wrapper Log
around n = record { tag_expression = no_tags; before = mark n; after = mark (n * 10) }

abbrev wrappers : List (Wrapper Log)
wrappers = around 1 ∷ around 2 ∷ []

abbrev scenario : Option Scenario
scenario = some (record { tags = codes "a" ∷ [] })

abbrev throwing : AroundStepHook Log
throwing = record {
  tag_expression = no_tags;
  body = call_step (call_step finish raise) (λ t. update (mark 9) finish);
}

exec_step_chain-EndsWithin_example :
    EndsWithin 3 (exec_step_chain scenario (some step) no_args (throwing ∷ wrap_all wrappers) [])
exec_step_chain-EndsWithin_example =
    exec_step_chain-EndsWithin scenario (some step) no_args (throwing ∷ wrap_all wrappers) []

exec_step_chain-wrap_all_example :
    exec_step_chain scenario (some step) no_args (wrap_all wrappers) []
    ≡ some (returns (outcome scenario step no_args wrappers []))
exec_step_chain-wrap_all_example = exec_step_chain-wrap_all scenario step no_args wrappers []

no_tags_match : tags_match scenario no_tags ≡ true
unfolding tags_match and_matches
no_tags_match = refl

abbrev registrations : List (Registered Log)
registrations =
    (codes "\"@a\"", λ log. returns (mark 1 log))
    ∷ (codes "\"@b\"", λ log. returns (mark 2 log))
    ∷ (codes "", λ log. throws unknown_object log)
    ∷ []

abbrev none_yet : Hooks Log
none_yet = record {
  before_all_hooks = [];
  before_hooks = [];
  around_step_hooks = [];
  after_step_hooks = [];
  after_hooks = [];
  after_all_hooks = [];
}

exec_before_hooks-register_all_example :
    exec_before_hooks (register_all register_before_hook registrations none_yet) scenario []
    ≡ and_then (exec_before_hooks none_yet scenario []) (run_forward scenario registrations)
exec_before_hooks-register_all_example =
    exec_before_hooks-register_all scenario registrations none_yet []
