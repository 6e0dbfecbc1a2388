-- ===== src/Step/Invoke.antt =====
-- `BasicStep::invoke`: the handlers around the driver's `invokeStepBody`.
use cucumber_cpp.Base.{if◌then◌else◌, codes}
use cucumber_cpp.Step.Body.{
  InvokeArgs, InvokeResult, success_result, failure_result, is_pending, Thrown, runtime_error,
  other_exception, string_object, c_string, unknown_object, StepBody,
}
use cucumber_cpp.Step.Drivers.{Driver, Invoked, returned, threw, invoke_step_body}

-- The handlers of `BasicStep::invoke`.
abbrev pub describe : Thrown → InvokeResult
describe (runtime_error what) = failure_result what
describe (other_exception what) = failure_result what
describe (string_object text) = failure_result text
describe (c_string text) = failure_result text
describe unknown_object = failure_result (codes "Unknown exception")

module _ {S : Type 0} where
  abbrev pub conclude : Invoked S → InvokeResult × S
  conclude (returned result r) =
      (if is_pending r.current_result then r.current_result else result, r.store)
  conclude (threw t r) = (describe t, r.store)

  unfoldable pub invoke : Driver S → StepBody S → InvokeArgs → S → InvokeResult × S
  unfolding invoke_step_body
  invoke driver body args store = conclude (
      invoke_step_body driver body (record {
        p_args = args;
        current_arg_index = 0;
        current_result = success_result;
        store = store;
      }))
