-- ===== src/Hook/Chain/Order.antt =====
-- In which order a chain runs hooks and step, and what hooks do that skip the call or repeat it.
use cucumber_cpp.Base.{
  ℕ, zero, suc, ◌≤◌, ◌≡◌, refl, inl, inr, true, Option, some, List, [], ◌∷◌, arith, if◌then◌else◌,
  length, Bool-cases,
}
use cucumber_cpp.Tag.{AndTagExpression}
use cucumber_cpp.Step.Body.{InvokeArgs, InvokeResult, default_result, Exit, returns}
use cucumber_cpp.Step.Manager.{StepInfo, invoke_step}
use cucumber_cpp.Hook.Registrar.{
  Scenario, finish, raise, update, call_step, AroundStepHook, tags_match,
}
use cucumber_cpp.Hook.Chain.{
  StepCallChain, run_around, invoke_around, exec_step, exec_next, exec_step_chain,
}

-- A hook that does something, calls the step once, and does something else.
pub record Wrapper (S : Type 0) : Type 0 where
  pub tag_expression : AndTagExpression
  pub before : S → S
  pub after : S → S

module _ {S : Type 0} where
  abbrev pub wrapping : Wrapper S → AroundStepHook S
  wrapping w = record {
    tag_expression = w.tag_expression;
    body = update w.before (call_step (update w.after finish) raise);
  }

  abbrev pub wrap_all : List (Wrapper S) → List (AroundStepHook S)
  wrap_all [] = []
  wrap_all (w ∷ ws) = wrapping w ∷ wrap_all ws

  -- The state in which the step runs: the first parts, first hook first.
  abbrev pub enter : Option Scenario → List (Wrapper S) → S → S
  enter scenario [] s = s
  enter scenario (w ∷ ws) s =
      enter scenario ws (if tags_match scenario w.tag_expression then w.before s else s)

  -- The state behind the step: the second parts, last hook first.
  abbrev pub leave : Option Scenario → List (Wrapper S) → S → S
  leave scenario [] s = s
  leave scenario (w ∷ ws) s =
      let inner = leave scenario ws s in
      if tags_match scenario w.tag_expression then w.after inner else inner

module _ {S : Type 0} (scenario : Option Scenario) where
  -- A wrapper whose call returns; where its tags do not match, it is the call alone.
  invoke_around-wrapping :
      (call : StepCallChain S → Option (Exit (StepCallChain S))) (w : Wrapper S)
      (c c' : StepCallChain S)
      → call (record c {
        store = if tags_match scenario w.tag_expression then w.before c.store else c.store;
      })
        ≡ some (returns c')
      → invoke_around scenario call (wrapping w) c
        ≡ some (
            returns (record c' {
              store = if tags_match scenario w.tag_expression then w.after c'.store else c'.store;
            }))
  unfolding invoke_around run_around
  invoke_around-wrapping call w c c' h = elim (Bool-cases (tags_match scenario w.tag_expression)) [
    | inl m ↦ rw (m, invoke_around) (rw ((rw m at h), run_around))
    | inr m ↦ rw (m, invoke_around) (rw m at h)
  ]

run_around_twice :
    {S : Type 0} (call : StepCallChain S → Option (Exit (StepCallChain S)))
    (c c' c'' : StepCallChain S)
    → call c ≡ some (returns c')
    → call c' ≡ some (returns c'')
    → run_around call (call_step (call_step finish raise) raise) c ≡ some (returns c'')
unfolding run_around
run_around_twice call c c' c'' once twice = rw (once, run_around) (rw (twice, run_around))

module _ {S : Type 0} (scenario : Option Scenario) (info : StepInfo S) (args : InvokeArgs) where
  abbrev next : ℕ → StepCallChain S → Option (Exit (StepCallChain S))
  next = exec_next scenario (some info) args

  -- The end of a chain of wrappers that starts in a state.
  abbrev pub outcome : List (Wrapper S) → S → StepCallChain S
  outcome ws s =
      let (result, behind) = invoke_step info args (enter scenario ws s) in
      record { next_hooks = []; result = result; store = leave scenario ws behind }

  exec_next-wrap_all :
      (ws : List (Wrapper S)) (fuel : ℕ) (result : InvokeResult) (s : S)
      → length (wrap_all ws) ≤ fuel
      → next fuel (record { next_hooks = wrap_all ws; result = result; store = s })
        ≡ some (returns (outcome ws s))
  unfolding exec_next exec_step
  exec_next-wrap_all [] zero result s f = refl
  exec_next-wrap_all [] (suc fuel) result s f = refl
  exec_next-wrap_all (w ∷ ws) zero result s f = absurd (omega arith)
  exec_next-wrap_all (w ∷ ws) (suc fuel) result s f =
      invoke_around-wrapping scenario (next fuel) w
        (record { next_hooks = wrap_all ws; result = result; store = s }) _
        (exec_next-wrap_all ws fuel result _ (omega arith))

  exec_next-nil :
      (fuel : ℕ) (result : InvokeResult) (s : S)
      → next fuel (record { next_hooks = []; result = result; store = s })
        ≡ some (
            returns
              (exec_step (some info) args (record { next_hooks = []; result = result; store = s })))
  unfolding exec_next
  exec_next-nil zero result s = refl
  exec_next-nil (suc fuel) result s = refl

  -- Hooks that call the step once are nested around it, the first of the list outermost; the
  -- result is that of the step. A hook whose tags do not match is passed over.
  pub exec_step_chain-wrap_all :
      (ws : List (Wrapper S)) (s : S)
      → exec_step_chain scenario (some info) args (wrap_all ws) s ≡ some (returns (outcome ws s))
  unfolding exec_step_chain
  exec_step_chain-wrap_all ws s =
      exec_next-wrap_all ws (length (wrap_all ws)) default_result s (omega arith)

  -- A hook that does not call the step stops the chain: nothing behind it runs, and the result is a
  -- failure without a description.
  pub exec_step_chain_blocked :
      (e : AndTagExpression) (f : S → S) (hooks : List (AroundStepHook S)) (s : S)
      → tags_match scenario e ≡ true
      → exec_step_chain scenario
          (some info)
          args
          (record { tag_expression = e; body = update f finish } ∷ hooks)
          s
        ≡ some (returns (record { next_hooks = hooks; result = default_result; store = f s }))
  unfolding exec_step_chain exec_next invoke_around run_around
  exec_step_chain_blocked e f hooks s m = rw (m, invoke_around)

  -- A hook that calls the step twice runs the hooks behind it once, and the step twice.
  pub exec_step_chain_twice :
      (e : AndTagExpression) (ws : List (Wrapper S)) (s : S)
      → tags_match scenario e ≡ true
      → exec_step_chain scenario
          (some info)
          args
          (record { tag_expression = e; body = call_step (call_step finish raise) raise }
            ∷ wrap_all ws)
          s
        ≡ some (returns (exec_step (some info) args (outcome ws s)))
  unfolding exec_step_chain exec_next invoke_around
  exec_step_chain_twice e ws s m =
      rw (m, invoke_around)
        (run_around_twice (next (length (wrap_all ws))) _ _ _
          (exec_next-wrap_all ws (length (wrap_all ws)) default_result s (omega arith))
          (exec_next-nil (length (wrap_all ws)) _ _))
