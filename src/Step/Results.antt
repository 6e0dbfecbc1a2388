-- ===== src/Step/Results.antt =====
-- When the results of the drivers are successes, and what a step makes of them.
use cucumber_cpp.Base.{
  ℕ, ◌≡◌, ◌↔◌, refl, sym, ◌∙◌, codes, inl, inr, Bool, true, false, Option, none, some, List, [],
  ◌∷◌, ◌++◌, append-nil, append_assoc, if◌then◌else◌, ◌==◌, ==_iff, Bool-cases, Text, arith,
}
use cucumber_cpp.Step.Body.{
  InvokeResult, success, failure, pending, is_pending, is_success, success_result, failure_result,
  Thrown, runtime_error, other_exception, string_object, c_string, unknown_object,
}
use cucumber_cpp.Step.Drivers.{
  LogCall, entry_value, exception_start, other_call, Interceptor, log_calls, get_result,
  get_tmp_file_name, exists,
}
use cucumber_cpp.Step.Invoke.{describe}

-- What stands in the result when `invokeStepBody` returned.
abbrev pub chosen : InvokeResult → InvokeResult → InvokeResult
chosen current result = if is_pending current then current else result

pub chosen-is_success :
    (current what : InvokeResult)
    → (is_success (chosen current what) ≡ true)
      ↔ (is_success what ≡ true) × (is_pending current ≡ false)
chosen-is_success current what =
    elim current.type
      as (λ type.
        let current' : InvokeResult = record current { type = type } in
        (is_success (chosen current' what) ≡ true)
        ↔ (is_success what ≡ true) × (is_pending current' ≡ false)) [
          | success ↦ ((λ e. (e, refl)), λ e. e.0)
          | failure ↦ ((λ e. (e, refl)), λ e. e.0)
          | pending ↦ ((λ e. cc), λ e. cc e.1)
        ]

pub chosen-is_pending :
    (current : InvokeResult) (what : InvokeResult)
    → is_pending what ≡ false
    → (is_pending (chosen current what) ≡ true) ↔ (is_pending current ≡ true)
chosen-is_pending current what h =
    elim current.type
      as (λ type.
        let current' : InvokeResult = record current { type = type } in
        (is_pending (chosen current' what) ≡ true) ↔ (is_pending current' ≡ true)) [
          | success ↦ ground (arith, h)
          | failure ↦ ground (arith, h)
          | pending ↦ ground (arith, h)
        ]

pub chosen-failed :
    (current what : InvokeResult)
    → is_success what ≡ false
    → is_success (chosen current what) ≡ false
chosen-failed current what h =
    elim current.type
      as (λ type.
        let current' : InvokeResult = record current { type = type } in
        is_success (chosen current' what) ≡ false) [
          | success ↦ ground (arith, h)
          | failure ↦ ground (arith, h)
          | pending ↦ ground (arith, h)
        ]

pub describe-is_success : (t : Thrown) → is_success (describe t) ≡ false
describe-is_success (runtime_error what) = refl
describe-is_success (other_exception what) = refl
describe-is_success (string_object text) = refl
describe-is_success (c_string text) = refl
describe-is_success unknown_object = refl

pub describe-is_pending : (t : Thrown) → is_pending (describe t) ≡ false
describe-is_pending (runtime_error what) = refl
describe-is_pending (other_exception what) = refl
describe-is_pending (string_object text) = refl
describe-is_pending (c_string text) = refl
describe-is_pending unknown_object = refl

-- A test that fails agrees with a proposition that does not hold.
pub never : {b : Bool} → b ≡ false → (b ≡ true) ↔ ⊥
never h = ((λ e. cc), absurd)

-- A step whose body came to its end succeeds if `pending` was not called.
pub succeeds_iff :
    (current : InvokeResult)
    → (is_success (chosen current success_result) ≡ true) ↔ (is_pending current ≡ false)
succeeds_iff current =
    let both = chosen-is_success current success_result in
    ((λ h. (both.0 h).1), λ h. both.1 (refl, h))

-- What the calls of a run write to the log.
abbrev pub logged : List LogCall → Text
logged [] = []
logged (entry_value value ∷ calls) = value ++ logged calls
logged (exception_start t ∷ calls) = logged calls
logged (other_call ∷ calls) = logged calls

pub log_calls-description :
    (calls : List LogCall) (i : Interceptor)
    → (log_calls calls i).description ≡ i.description ++ logged calls
unfolding log_calls
log_calls-description [] i = sym (append-nil i.description)
log_calls-description (entry_value value ∷ calls) i =
    log_calls-description calls (record i { description = i.description ++ value })
    ∙ append_assoc i.description value (logged calls)
log_calls-description (exception_start t ∷ calls) i = log_calls-description calls i
log_calls-description (other_call ∷ calls) i = log_calls-description calls i

pub get_result-is_success :
    (i : Interceptor) → (is_success (get_result i) ≡ true) ↔ (i.description ≡ [])
unfolding get_result
get_result-is_success i =
    elim i.description
      as (λ d. (is_success (get_result (record { description = d })) ≡ true) ↔ (d ≡ [])) [
        | [] ↦ ((λ e. refl), λ e. refl)
        | c ∷ s ↦ ((λ e. cc), λ e. cc)
      ]

pub get_result-is_pending : (i : Interceptor) → is_pending (get_result i) ≡ false
unfolding get_result
get_result-is_pending i =
    elim i.description as (λ d. is_pending (get_result (record { description = d })) ≡ false) [
      | [] ↦ refl
      | c ∷ s ↦ refl
    ]

-- What a Qt step gives without a file.
abbrev pub closed_result : InvokeResult
closed_result = failure_result (codes "Unable to open temporary file needed for this test")

-- The temporary file could be opened.
abbrev pub is_opened : Option Text → Bool
is_opened none = false
is_opened (some name) = true

pub exists-is_opened : (file : Option Text) → exists (get_tmp_file_name file) ≡ is_opened file
unfolding get_tmp_file_name exists
exists-is_opened none = refl
exists-is_opened (some []) = refl
exists-is_opened (some (c ∷ name)) = refl

-- What Qt's number makes of a run.
abbrev pub exec_result : ℕ → Text → InvokeResult
exec_result n t = if n == 0 then success_result else failure_result t

pub exec_result-is_success : (n : ℕ) (t : Text) → (is_success (exec_result n t) ≡ true) ↔ (n ≡ 0)
exec_result-is_success n t = elim (Bool-cases (n == 0)) [
  | inl e ↦ ((λ h. (==_iff n 0).0 e), λ h. rw e)
  | inr e ↦ ((λ h. cc (rw e at h)), λ h. cc ((==_iff n 0).1 h, e))
]

pub exec_result-is_pending : (n : ℕ) (t : Text) → is_pending (exec_result n t) ≡ false
exec_result-is_pending n t = elim (Bool-cases (n == 0)) [ inl e ↦ rw e | inr e ↦ rw e ]
