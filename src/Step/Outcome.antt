-- ===== src/Step/Outcome.antt =====
-- When `BasicStep::invoke` reports success, and when it reports a pending step.
use cucumber_cpp.Base.{
  ◌≡◌, ◌↔◌, refl, sym, ap, ◌∙◌, inl, inr, true, false, List, [], ◌∷◌, Bool-cases,
}
use cucumber_cpp.Step.Body.{
  InvokeArgs, is_pending, is_success, success_result, failure_result, Thrown, runtime_error,
  other_exception, string_object, c_string, unknown_object, Exit, returns, throws, StepBody,
  StepRun, run_body,
}
use cucumber_cpp.Step.Drivers.{
  Driver, generic, gtest, boost, qt, returned, LogCall, exception_start, Interceptor, reset,
  log_calls, get_result, QtTest, read, exit_run, generic_step_body, gtest_step_body,
  boost_step_body, qt_step_body, invoke_step_body,
}
use cucumber_cpp.Step.Invoke.{conclude, invoke}
use cucumber_cpp.Step.Results.{
  chosen-is_success, chosen-is_pending, chosen-failed, describe-is_success, describe-is_pending,
  never, succeeds_iff, logged, log_calls-description, get_result-is_success, get_result-is_pending,
  closed_result, is_opened, exists-is_opened, exec_result, exec_result-is_success,
  exec_result-is_pending,
}

module _ {S : Type 0} where
  -- The state in which the body of a step starts.
  abbrev pub started : InvokeArgs → S → StepRun S
  started args store = record {
    p_args = args;
    current_arg_index = 0;
    current_result = success_result;
    store = store;
  }

  -- A step succeeds: its body came to its end, for Boost nothing was written to the log, for Qt
  -- there was a file and no test failed; and `pending` was not called.
  abbrev pub EndsPlain : Driver S → Exit (StepRun S) → Type 0
  EndsPlain generic (returns r) = is_pending r.current_result ≡ false
  EndsPlain gtest (returns r) = is_pending r.current_result ≡ false
  EndsPlain (boost run_calls i) e =
      (logged (run_calls e) ≡ []) × (is_pending (exit_run e).current_result ≡ false)
  EndsPlain (qt q) e =
      (is_opened q.temporary_file ≡ true)
      × (q.q_exec e ≡ 0)
      × (is_pending (exit_run e).current_result ≡ false)
  EndsPlain d (throws t r) = ⊥

  -- `pending` was called, and the driver's `invokeStepBody` returned behind it: GoogleTest's driver
  -- does so when the body threw a runtime error, Boost's whatever happens, and Qt's if there was a
  -- file.
  abbrev pub EndsPending : Driver S → Exit (StepRun S) → Type 0
  EndsPending generic (returns r) = is_pending r.current_result ≡ true
  EndsPending gtest (returns r) = is_pending r.current_result ≡ true
  EndsPending gtest (throws (runtime_error what) r) = is_pending r.current_result ≡ true
  EndsPending (boost run_calls i) e = is_pending (exit_run e).current_result ≡ true
  EndsPending (qt q) e =
      (is_opened q.temporary_file ≡ true) × (is_pending (exit_run e).current_result ≡ true)
  EndsPending d (throws t r) = ⊥

  generic-is_success :
      (e : Exit (StepRun S))
      → (is_success (conclude (generic_step_body e)).0 ≡ true) ↔ EndsPlain generic e
  unfolding generic_step_body
  generic-is_success (returns r) = succeeds_iff r.current_result
  generic-is_success (throws t r) = never (describe-is_success t)

  gtest-is_success :
      (e : Exit (StepRun S))
      → (is_success (conclude (gtest_step_body e)).0 ≡ true) ↔ EndsPlain gtest e
  unfolding gtest_step_body
  gtest-is_success (returns r) = succeeds_iff r.current_result
  gtest-is_success (throws (runtime_error what) r) =
      never (chosen-failed r.current_result (failure_result what) refl)
  gtest-is_success (throws (other_exception what) r) = never refl
  gtest-is_success (throws (string_object text) r) = never refl
  gtest-is_success (throws (c_string text) r) = never refl
  gtest-is_success (throws unknown_object r) = never refl

  boost-is_success :
      (run_calls : Exit (StepRun S) → List LogCall) (i : Interceptor) (body : StepBody S)
      (r : StepRun S)
      → (is_success (conclude (boost_step_body run_calls i body r)).0 ≡ true)
        ↔ EndsPlain (boost run_calls i) (run_body body r)
  unfolding boost_step_body reset
  boost-is_success run_calls i body r =
      let e = run_body body r in
      let d = log_calls-description (run_calls e) (reset i) in
      let what = get_result-is_success (log_calls (run_calls e) (reset i)) in
      let chosen =
        chosen-is_success (exit_run e).current_result
          (get_result (log_calls (run_calls e) (reset i))) in
      (
        (λ h. let (a, b) = chosen.0 h in (sym d ∙ what.0 a, b)),
        λ h. chosen.1 (what.1 (d ∙ h.0), h.1),
      )

  qt_step_body_closed :
      (q : QtTest S) (body : StepBody S) (r : StepRun S)
      → is_opened q.temporary_file ≡ false
      → qt_step_body q body r ≡ returned closed_result r
  unfolding qt_step_body
  qt_step_body_closed q body r e = rw (exists-is_opened q.temporary_file ∙ e, qt_step_body)

  qt_step_body_opened :
      (q : QtTest S) (body : StepBody S) (r : StepRun S)
      → is_opened q.temporary_file ≡ true
      → qt_step_body q body r
        ≡ returned
            (exec_result (q.q_exec (run_body body r)) (read (q.written (run_body body r))))
            (exit_run (run_body body r))
  unfolding qt_step_body
  qt_step_body_opened q body r e = rw (exists-is_opened q.temporary_file ∙ e, qt_step_body)

  qt-is_success :
      (q : QtTest S) (body : StepBody S) (r : StepRun S)
      → (is_success (conclude (qt_step_body q body r)).0 ≡ true)
        ↔ EndsPlain (qt q) (run_body body r)
  qt-is_success q body r = elim (Bool-cases (is_opened q.temporary_file)) [
    | inr e ↦
        rw (qt_step_body_closed q body r e)
          ((λ h. cc (chosen-failed r.current_result closed_result refl)), λ h. cc (h.0, e))
    | inl e ↦
        let run = run_body body r in
        let what = exec_result-is_success (q.q_exec run) (read (q.written run)) in
        let chosen =
          chosen-is_success (exit_run run).current_result
            (exec_result (q.q_exec run) (read (q.written run))) in
        rw (qt_step_body_opened q body r e)
          ((λ h. let (a, b) = chosen.0 h in (e, what.0 a, b)), λ (h, a, b). chosen.1 (what.1 a, b))
  ]

  conclude-is_success :
      (d : Driver S) (body : StepBody S) (r : StepRun S)
      → (is_success (conclude (invoke_step_body d body r)).0 ≡ true) ↔ EndsPlain d (run_body body r)
  unfolding invoke_step_body
  conclude-is_success generic body r = generic-is_success (run_body body r)
  conclude-is_success gtest body r = gtest-is_success (run_body body r)
  conclude-is_success (boost run_calls i) body r = boost-is_success run_calls i body r
  conclude-is_success (qt q) body r = qt-is_success q body r

  gtest-is_pending :
      (e : Exit (StepRun S))
      → (is_pending (conclude (gtest_step_body e)).0 ≡ true) ↔ EndsPending gtest e
  unfolding gtest_step_body
  gtest-is_pending (returns r) = chosen-is_pending r.current_result success_result refl
  gtest-is_pending (throws (runtime_error what) r) =
      chosen-is_pending r.current_result (failure_result what) refl
  gtest-is_pending (throws (other_exception what) r) = never refl
  gtest-is_pending (throws (string_object text) r) = never refl
  gtest-is_pending (throws (c_string text) r) = never refl
  gtest-is_pending (throws unknown_object r) = never refl

  generic-is_pending :
      (e : Exit (StepRun S))
      → (is_pending (conclude (generic_step_body e)).0 ≡ true) ↔ EndsPending generic e
  unfolding generic_step_body
  generic-is_pending (returns r) = chosen-is_pending r.current_result success_result refl
  generic-is_pending (throws t r) = never (describe-is_pending t)

  boost-is_pending :
      (run_calls : Exit (StepRun S) → List LogCall) (i : Interceptor) (body : StepBody S)
      (r : StepRun S)
      → (is_pending (conclude (boost_step_body run_calls i body r)).0 ≡ true)
        ↔ EndsPending (boost run_calls i) (run_body body r)
  unfolding boost_step_body
  boost-is_pending run_calls i body r =
      let e = run_body body r in
      chosen-is_pending (exit_run e).current_result _
        (get_result-is_pending (log_calls (run_calls e) (reset i)))

  qt-is_pending :
      (q : QtTest S) (body : StepBody S) (r : StepRun S)
      → is_pending r.current_result ≡ false
      → (is_pending (conclude (qt_step_body q body r)).0 ≡ true)
        ↔ EndsPending (qt q) (run_body body r)
  qt-is_pending q body r fresh = elim (Bool-cases (is_opened q.temporary_file)) [
    | inr e ↦
        let chosen = chosen-is_pending r.current_result closed_result refl in
        rw (qt_step_body_closed q body r e) ((λ h. cc (chosen.0 h, fresh)), λ h. cc (h.0, e))
    | inl e ↦
        let run = run_body body r in
        let chosen =
          chosen-is_pending (exit_run run).current_result
            (exec_result (q.q_exec run) (read (q.written run)))
            (exec_result-is_pending (q.q_exec run) (read (q.written run))) in
        rw (qt_step_body_opened q body r e) ((λ h. (e, chosen.0 h)), λ h. chosen.1 h.1)
  ]

  conclude-is_pending :
      (d : Driver S) (body : StepBody S) (r : StepRun S)
      → is_pending r.current_result ≡ false
      → (is_pending (conclude (invoke_step_body d body r)).0 ≡ true)
        ↔ EndsPending d (run_body body r)
  unfolding invoke_step_body
  conclude-is_pending generic body r fresh = generic-is_pending (run_body body r)
  conclude-is_pending gtest body r fresh = gtest-is_pending (run_body body r)
  conclude-is_pending (boost run_calls i) body r fresh = boost-is_pending run_calls i body r
  conclude-is_pending (qt q) body r fresh = qt-is_pending q body r fresh

  -- A step succeeds exactly if `pending` was not called and, under the generic driver and
  -- GoogleTest's, its body comes to its end; under Boost's, the run writes nothing to the log,
  -- whatever the interceptor held before; and under Qt's, a temporary file could be opened and no
  -- test failed.
  pub invoke-is_success :
      (d : Driver S) (body : StepBody S) (args : InvokeArgs) (store : S)
      → (is_success (invoke d body args store).0 ≡ true)
        ↔ EndsPlain d (run_body body (started args store))
  unfolding invoke
  invoke-is_success d body args store = conclude-is_success d body (started args store)

  -- A step is pending exactly if its body called `pending` and then came to its end, or threw a
  -- runtime error under GoogleTest's driver, or ended in any way under Boost's, or did so under
  -- Qt's while a temporary file could be opened. Under the generic driver an exception behind a
  -- call of `pending` makes it a failure.
  pub invoke-is_pending :
      (d : Driver S) (body : StepBody S) (args : InvokeArgs) (store : S)
      → (is_pending (invoke d body args store).0 ≡ true)
        ↔ EndsPending d (run_body body (started args store))
  unfolding invoke
  invoke-is_pending d body args store = conclude-is_pending d body (started args store) refl

  -- Under Boost's driver a run that writes nothing to the log is a success, even if the body
  -- throws: what an exception reports is not kept.
  boost_ignores_exception :
      (run_calls : Exit (StepRun S) → List LogCall) (i : Interceptor) (body : StepBody S)
      → (args : InvokeArgs) (store : S) (t : Thrown) (r : StepRun S)
      → run_body body (started args store) ≡ throws t r
      → run_calls (throws t r) ≡ exception_start t ∷ []
      → is_pending r.current_result ≡ false
      → is_success (invoke (boost run_calls i) body args store).0 ≡ true
  boost_ignores_exception run_calls i body args store t r ended calls fresh =
      (invoke-is_success (boost run_calls i) body args store).1 (rw ended (ap logged calls, fresh))
