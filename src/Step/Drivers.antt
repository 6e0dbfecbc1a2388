-- ===== src/Step/Drivers.antt =====
-- src/drivers: `invokeStepBody` of the four drivers. What GoogleTest, Boost.Test and Qt do around a
-- body is theirs: GoogleTest's failures are runtime errors, Boost.Test reports a run by calls of
-- the formatter, and Qt by a number and a file.
use cucumber_cpp.Base.{
  ℕ, Bool, not, Option, none, some, List, [], ◌∷◌, ◌++◌, if◌then◌else◌, ◌==◌, is_empty, Text, codes,
}
use cucumber_cpp.Step.Body.{
  InvokeResult, success_result, failure_result, Thrown, runtime_error, Exit, returns, throws,
  StepBody, StepRun, run_body,
}

-- What `invokeStepBody` does: it returns a result, or throws.
pub data Invoked (S : Type 0) : Type 0 where
  returned : InvokeResult → StepRun S → Invoked S
  threw : Thrown → StepRun S → Invoked S

-- The calls of a formatter: a piece of a log entry, the start of an exception's report, and the
-- others, which do nothing.
pub data LogCall : Type 0 where
  entry_value : Text → LogCall
  exception_start : Thrown → LogCall
  other_call : LogCall

-- `CukeBoostLogInterceptor`.
pub record Interceptor : Type 0 where
  pub description : Text

unfoldable pub reset : Interceptor → Interceptor
reset i = record i { description = [] }

unfoldable pub log_call : LogCall → Interceptor → Interceptor
log_call (entry_value value) i = record i { description = i.description ++ value }
log_call (exception_start t) i = i
log_call other_call i = i

unfoldable pub log_calls : List LogCall → Interceptor → Interceptor
unfolding log_call
log_calls [] i = i
log_calls (c ∷ calls) i = log_calls calls (log_call c i)

unfoldable pub get_result : Interceptor → InvokeResult
get_result i = if is_empty i.description then success_result else failure_result i.description

-- What a `QtTestStep` meets: the name of the temporary file, if one could be opened; the number
-- that `QTest::qExec` returns for a run of the body; and what the file holds then, if it opens.
pub record QtTest (S : Type 0) : Type 0 where
  pub temporary_file : Option Text
  pub q_exec : Exit (StepRun S) → ℕ
  pub written : Exit (StepRun S) → Option Text

-- `TemporaryFileWrapper`.
unfoldable pub get_tmp_file_name : Option Text → Text
get_tmp_file_name none = []
get_tmp_file_name (some name) = name ++ codes ".txt"

unfoldable pub exists : Text → Bool
exists filename = not (is_empty filename)

unfoldable pub read : Option Text → Text
read none = []
read (some content) = content

-- The driver of a step. A Boost step has the calls that a run of its body makes, and the
-- interceptor as the steps before left it.
pub data Driver (S : Type 0) : Type 0 where
  generic gtest : Driver S
  boost : (Exit (StepRun S) → List LogCall) → Interceptor → Driver S
  qt : QtTest S → Driver S

module _ {S : Type 0} where
  abbrev pub exit_run : Exit (StepRun S) → StepRun S
  exit_run (returns r) = r
  exit_run (throws t r) = r

  -- `GenericStep::invokeStepBody`, behind the run of the body.
  unfoldable pub generic_step_body : Exit (StepRun S) → Invoked S
  generic_step_body (returns r) = returned success_result r
  generic_step_body (throws t r) = threw t r

  -- `GTestStep::invokeStepBody`, with its handler.
  unfoldable pub gtest_step_body : Exit (StepRun S) → Invoked S
  gtest_step_body (returns r) = returned success_result r
  gtest_step_body (throws (runtime_error what) r) = returned (failure_result what) r
  gtest_step_body (throws t r) = threw t r

  -- The body of the test case, which runs `currentTestBody` if that is set.
  unfoldable pub exec_test_body : Option (StepBody S) → StepRun S → Exit (StepRun S)
  unfolding run_body
  exec_test_body none r = returns r
  exec_test_body (some body) r = run_body body r

  -- `runWithMasterSuite`: the body is set, the test case runs, and its run makes some calls.
  unfoldable pub run_with_master_suite :
      (Exit (StepRun S) → List LogCall) → StepBody S → StepRun S → List LogCall × Exit (StepRun S)
  unfolding exec_test_body
  run_with_master_suite run_calls body r = let e = exec_test_body (some body) r in (run_calls e, e)

  -- `BoostStep::invokeStepBody`: reset, run, result.
  unfoldable pub boost_step_body :
      (Exit (StepRun S) → List LogCall) → Interceptor → StepBody S → StepRun S → Invoked S
  unfolding reset log_calls get_result run_with_master_suite
  boost_step_body run_calls i body r =
      let (calls, e) = run_with_master_suite run_calls body r in
      returned (get_result (log_calls calls (reset i))) (exit_run e)

  -- `QtTestStep::invokeStepBody`: without a file the body does not run.
  unfoldable pub qt_step_body : QtTest S → StepBody S → StepRun S → Invoked S
  unfolding run_body get_tmp_file_name exists read
  qt_step_body q body r =
      if not (exists (get_tmp_file_name q.temporary_file))
      then returned (failure_result (codes "Unable to open temporary file needed for this test")) r
      else let e = run_body body r in
        returned (if q.q_exec e == 0 then success_result else failure_result (read (q.written e)))
          (exit_run e)

  unfoldable pub invoke_step_body : Driver S → StepBody S → StepRun S → Invoked S
  unfolding run_body generic_step_body gtest_step_body boost_step_body qt_step_body
  invoke_step_body generic body r = generic_step_body (run_body body r)
  invoke_step_body gtest body r = gtest_step_body (run_body body r)
  invoke_step_body (boost run_calls i) body r = boost_step_body run_calls i body r
  invoke_step_body (qt q) body r = qt_step_body q body r
