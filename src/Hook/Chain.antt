-- ===== src/Hook/Chain.antt =====
-- `StepCallChain`: the around-step hooks, each in control of the call of what is behind it.
pub mod Total
pub mod Order
use cucumber_cpp.Base.{
  ℕ, zero, suc, Bool, true, false, Option, none, some, List, [], ◌∷◌, if◌then◌else◌, length, Text,
}
use cucumber_cpp.Step.Body.{InvokeArgs, InvokeResult, default_result, Thrown, Exit, returns, throws}
use cucumber_cpp.Step.Manager.{StepInfo, invoke_step}
use cucumber_cpp.Hook.Registrar.{
  Scenario, AroundBody, finish, raise, update, inspect, call_step, AroundStepHook, tags_match,
}

-- The fields that change: `nextHook` up to `hookEnd`, `result`, and the program's state.
pub record StepCallChain (S : Type 0) : Type 0 where
  pub next_hooks : List (AroundStepHook S)
  pub result : InvokeResult
  pub store : S

module _ {S : Type 0} where
  -- The body of an around-step hook, with `step->call()` as an argument; `none` is a call whose
  -- fuel ran out.
  unfoldable pub run_around :
      (StepCallChain S → Option (Exit (StepCallChain S)))
      → AroundBody S
      → StepCallChain S
      → Option (Exit (StepCallChain S))
  run_around call finish c = some (returns c)
  run_around call (raise t) c = some (throws t c)
  run_around call (update f k) c = run_around call k (record c { store = f c.store })
  run_around call (inspect k) c = run_around call (k c.store) c
  run_around call (call_step k handler) c = elim (call c) [
    | none ↦ none
    | some (returns c') ↦ run_around call k c'
    | some (throws t c') ↦ run_around call (handler t) c'
  ]

  -- `AroundStepHook::invokeHook`; its `skipHook` calls the step.
  unfoldable pub invoke_around :
      Option Scenario
      → (StepCallChain S → Option (Exit (StepCallChain S)))
      → AroundStepHook S
      → StepCallChain S
      → Option (Exit (StepCallChain S))
  invoke_around scenario call h c =
      if tags_match scenario h.tag_expression then run_around call h.body c else call c

  -- `execStep`; `none` is a null pointer.
  unfoldable pub exec_step : Option (StepInfo S) → InvokeArgs → StepCallChain S → StepCallChain S
  exec_step none p_step_args c = c
  exec_step (some s) p_step_args c =
      let (result, store) = invoke_step s p_step_args c.store in
      record c { result = result; store = store }

  module _ (scenario : Option Scenario) (step_info : Option (StepInfo S))
      (p_step_args : InvokeArgs) where
    -- `execNext`. Every nested call takes a hook off the list, so their number is fuel enough.
    unfoldable pub exec_next : ℕ → StepCallChain S → Option (Exit (StepCallChain S))
    exec_next zero c = elim c.next_hooks [
      | [] ↦ some (returns (exec_step step_info p_step_args c))
      | h ∷ hooks ↦ none
    ]
    exec_next (suc fuel) c = elim c.next_hooks [
      | [] ↦ some (returns (exec_step step_info p_step_args c))
      | h ∷ hooks ↦ invoke_around scenario (exec_next fuel) h (record c { next_hooks = hooks })
    ]

    -- The constructor and `exec`: the result is a failure until a step has run.
    unfoldable pub exec_step_chain : List (AroundStepHook S) → S → Option (Exit (StepCallChain S))
    exec_step_chain around_hooks store =
        exec_next (length around_hooks)
          (record { next_hooks = around_hooks; result = default_result; store = store })
