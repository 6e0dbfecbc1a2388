-- ===== src/Step/Body.antt =====
-- `InvokeArgs`, `InvokeResult` and the body of a step. The body of a step is user code: a tree of
-- what it does to the program's state `S` and to its step object, so that it can end, throw, read
-- arguments and mark itself pending.
use cucumber_cpp.Base.{
  ℕ, ◌+◌, Bool, true, false, Option, none, some, List, [], ◌∷◌, ◌++◌, if◌then◌else◌, get_elem?,
  Text, codes, c_str,
}
use cucumber_cpp.Table.{Table, empty_table}

pub record InvokeArgs : Type 0 where
  pub table_arg : Table
  pub args : List Text

abbrev pub no_args : InvokeArgs
no_args = record { table_arg = empty_table; args = [] }

unfoldable pub add_arg : Text → InvokeArgs → InvokeArgs
add_arg arg a = record a { args = a.args ++ arg ∷ [] }

pub data InvokeResultType : Type 0 where
  success failure pending : InvokeResultType

pub record InvokeResult : Type 0 where
  pub type : InvokeResultType
  pub description : Text

-- The private constructor; `none` is a null pointer, and a text is read as a C string.
abbrev pub invoke_result : InvokeResultType → Option Text → InvokeResult
invoke_result type none = record { type = type; description = [] }
invoke_result type (some description) = record { type = type; description = c_str description }

-- `InvokeResult()`.
abbrev pub default_result : InvokeResult
default_result = record { type = failure; description = [] }

abbrev pub success_result : InvokeResult
success_result = invoke_result success none

abbrev pub failure_result : Text → InvokeResult
failure_result description = invoke_result failure (some description)

abbrev pub pending_result : Option Text → InvokeResult
pending_result = invoke_result pending

abbrev pub is_pending : InvokeResult → Bool
is_pending r = elim r.type [ success ↦ false | failure ↦ false | pending ↦ true ]

abbrev pub is_success : InvokeResult → Bool
is_success r = elim r.type [ success ↦ true | failure ↦ false | pending ↦ false ]

-- What C++ code throws, as far as the handlers tell it apart.
pub data Thrown : Type 0 where
  runtime_error other_exception : Text → Thrown
  string_object c_string : Text → Thrown
  unknown_object : Thrown

-- How a run of user code ends, with the state that it leaves.
pub data Exit (S : Type 0) : Type 0 where
  returns : S → Exit S
  throws : Thrown → S → Exit S

-- `next_arg converts k` is `getInvokeArg<T>()`: the argument is converted, or the conversion fails;
-- `arg_at converts i k` is `pArgs->getInvokeArg<T>(i)`. The others are the assignment of
-- `currentArgIndex` and `getArgs()->getTableArg()`.
pub data StepBody (S : Type 0) : Type 0 where
  finish : StepBody S
  raise : Thrown → StepBody S
  update : (S → S) → StepBody S → StepBody S
  inspect : (S → StepBody S) → StepBody S
  set_pending : Option Text → StepBody S → StepBody S
  next_arg : (Text → Bool) → (Text → StepBody S) → StepBody S
  arg_at : (Text → Bool) → ℕ → (Text → StepBody S) → StepBody S
  set_arg_index : ℕ → StepBody S → StepBody S
  get_table_arg : (Table → StepBody S) → StepBody S

-- The fields of a `BasicStep`, and the state around it.
pub record StepRun (S : Type 0) : Type 0 where
  pub p_args : InvokeArgs
  pub current_arg_index : ℕ
  pub current_result : InvokeResult
  pub store : S

-- `InvokeArgs::getInvokeArg(i)` for the argument at the index, and `fromString`.
abbrev pub argument_error : (Text → Bool) → Option Text → Option Thrown
argument_error converts none = some (other_exception (codes "Parameter not found"))
argument_error converts (some arg) =
    if converts arg then none else some (other_exception (codes "Cannot convert parameter"))

abbrev pub argument : Option Text → Text
argument none = []
argument (some arg) = arg

module _ {S : Type 0} where
  abbrev pub throw_or : Option Thrown → StepRun S → Exit (StepRun S) → Exit (StepRun S)
  throw_or none r rest = rest
  throw_or (some t) r rest = throws t r

  unfoldable pub run_body : StepBody S → StepRun S → Exit (StepRun S)
  run_body finish r = returns r
  run_body (raise t) r = throws t r
  run_body (update f k) r = run_body k (record r { store = f r.store })
  run_body (inspect k) r = run_body (k r.store) r
  run_body (set_pending description k) r =
      run_body k (record r { current_result = pending_result description })
  run_body (next_arg converts k) r =
      let arg = get_elem? r.p_args.args r.current_arg_index in
      let r' = record r { current_arg_index = r.current_arg_index + 1 } in
      throw_or (argument_error converts arg) r' (run_body (k (argument arg)) r')
  run_body (arg_at converts i k) r =
      let arg = get_elem? r.p_args.args i in
      throw_or (argument_error converts arg) r (run_body (k (argument arg)) r)
  run_body (set_arg_index i k) r = run_body k (record r { current_arg_index = i })
  run_body (get_table_arg k) r = run_body (k r.p_args.table_arg) r
