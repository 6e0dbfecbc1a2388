-- ===== src/Hook/Chain/Total.antt =====
-- A chain of hooks ends: the number of hooks is fuel enough, whatever the hooks do.
use cucumber_cpp.Base.{
  ℕ, zero, suc, ◌≤◌, ◌≡◌, refl, ap, Option, none, some, List, [], ◌∷◌, arith, length, if_cases,
}
use cucumber_cpp.Step.Body.{InvokeArgs, InvokeResult, Thrown, Exit, returns, throws}
use cucumber_cpp.Step.Manager.{StepInfo}
use cucumber_cpp.Hook.Registrar.{
  Scenario, AroundBody, finish, raise, update, inspect, call_step, AroundStepHook, tags_match,
}
use cucumber_cpp.Hook.Chain.{
  StepCallChain, run_around, invoke_around, exec_step, exec_next, exec_step_chain,
}

-- A run that ends, by a return or an exception, with at most `n` hooks left.
pub data EndsWithin {S : Type 0} (n : ℕ) : Option (Exit (StepCallChain S)) → Type 0 where
  ended : (c : StepCallChain S) → length c.next_hooks ≤ n → EndsWithin n (some (returns c))
  raised :
      (t : Thrown) (c : StepCallChain S)
      → length c.next_hooks ≤ n
      → EndsWithin n (some (throws t c))

abbrev Call : Type 0 → Type 0
Call S = StepCallChain S → Option (Exit (StepCallChain S))

-- From at most `n` hooks, a call ends with at most `n` hooks left.
abbrev KeepsWithin : {S : Type 0} → ℕ → Call S → Type 0
KeepsWithin {S} n call = (c : StepCallChain S) → length c.next_hooks ≤ n → EndsWithin n (call c)

EndsWithin-mono :
    {S : Type 0} {m : ℕ} (n : ℕ) {r : Option (Exit (StepCallChain S))}
    → m ≤ n
    → EndsWithin m r
    → EndsWithin n r
EndsWithin-mono n h (ended c l) = ended c (omega arith)
EndsWithin-mono n h (raised t c l) = raised t c (omega arith)

module _ {S : Type 0} where
  run_around-EndsWithin :
      (n : ℕ) (call : Call S)
      → KeepsWithin n call
      → (body : AroundBody S) → KeepsWithin n (run_around call body)
  unfolding run_around
  run_around-EndsWithin n call keeps finish c h = ended c h
  run_around-EndsWithin n call keeps (raise t) c h = raised t c h
  run_around-EndsWithin n call keeps (update f k) c h =
      run_around-EndsWithin n call keeps k (record c { store = f c.store }) h
  run_around-EndsWithin n call keeps (inspect k) c h =
      run_around-EndsWithin n call keeps (k c.store) c h
  run_around-EndsWithin n call keeps (call_step k handler) c h =
      after (call c) (keeps c h) refl (run_around-EndsWithin n call keeps k)
        (λ t. run_around-EndsWithin n call keeps (handler t))
    where
      after :
          (m : Option (Exit (StepCallChain S)))
          → EndsWithin n m
          → call c ≡ m
          → KeepsWithin n (run_around call k)
          → ((t : Thrown) → KeepsWithin n (run_around call (handler t)))
          → EndsWithin n (run_around call (call_step k handler) c)
      after m (ended c' l) e on_return on_throw = rw (e, run_around) (on_return c' l)
      after m (raised t c' l) e on_return on_throw = rw (e, run_around) (on_throw t c' l)

  exec_step-hooks :
      (s : Option (StepInfo S)) (args : InvokeArgs) (c : StepCallChain S)
      → (exec_step s args c).next_hooks ≡ c.next_hooks
  unfolding exec_step
  exec_step-hooks none args c = refl
  exec_step-hooks (some s) args c = refl

  invoke_around-EndsWithin :
      (n : ℕ) (scenario : Option Scenario) (call : Call S) (h : AroundStepHook S)
      → KeepsWithin n call
      → KeepsWithin n (invoke_around scenario call h)
  unfolding invoke_around
  invoke_around-EndsWithin n scenario call h keeps c l =
      if_cases (EndsWithin n) (tags_match scenario h.tag_expression)
        (λ _. run_around-EndsWithin n call keeps h.body c l) (λ _. keeps c l)

  module _ (scenario : Option Scenario) (step_info : Option (StepInfo S)) (args : InvokeArgs) where
    exec_next_from :
        (fuel : ℕ) (hooks : List (AroundStepHook S)) (result : InvokeResult) (store : S)
        → length hooks ≤ fuel
        → EndsWithin (length hooks) (
            exec_next scenario step_info args fuel
              (record { next_hooks = hooks; result = result; store = store }))
    unfolding exec_next
    exec_next_from zero [] result store f =
        ended _ (omega (arith, ap length (exec_step-hooks step_info args _)))
    exec_next_from zero (h ∷ hooks) result store f = absurd (omega arith)
    exec_next_from (suc fuel) [] result store f =
        ended _ (omega (arith, ap length (exec_step-hooks step_info args _)))
    exec_next_from (suc fuel) (h ∷ hooks) result store f = EndsWithin-mono _ (omega arith) (
        invoke_around-EndsWithin (length hooks) scenario (exec_next scenario step_info args fuel) h
          (λ c l.
            EndsWithin-mono (length hooks) l
              (exec_next_from fuel c.next_hooks c.result c.store (omega arith)))
          _ (omega arith))

    -- Whatever the hooks and the step do, the chain ends by a return or an exception: the number of
    -- hooks is fuel enough.
    pub exec_step_chain-EndsWithin :
        (hooks : List (AroundStepHook S)) (store : S)
        → EndsWithin (length hooks) (exec_step_chain scenario step_info args hooks store)
    unfolding exec_step_chain
    exec_step_chain-EndsWithin hooks store =
        exec_next_from (length hooks) hooks _ store (omega arith)
