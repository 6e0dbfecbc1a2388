-- ===== src/Macros/Arguments.antt =====
-- A step that takes its arguments as parameters of its body does what one does that takes them by
-- `REGEX_PARAM`.
use native.Mathlib.Nat.{add-zero, zero-add}
use cucumber_cpp.Base.{
  ℕ, zero, suc, ◌+◌, ◌<◌, ◌≡◌, ◌∙◌, refl, sym, ap, ap₂, subst, Bool, true, false, ◌==◌, ==_iff,
  Bool-cases, Option-cases, ◌⊎◌, inl, inr, if◌then◌else◌, Option, none, some, List, [], ◌∷◌, length,
  get_elem?, Text, codes, All, arith,
}
use cucumber_cpp.Step.Body.{
  Exit, throws, Thrown, other_exception, StepBody, StepRun, InvokeArgs, argument_error, argument,
  run_body,
}
use cucumber_cpp.Step.Drivers.{gtest, invoke_step_body}
use cucumber_cpp.Step.Invoke.{invoke}
use cucumber_cpp.Step.Outcome.{started}
use cucumber_cpp.Macros.{
  ArgTypes, no_types, one_type, converts_at, bind_arg, args_from, evaluate_args,
  invoke_with_indexed_args, invoke_with_args, cuke_object, regex_param,
}

-- Each index below a number is in the order, and no other.
abbrev pub is_in : ℕ → List ℕ → Bool
is_in j [] = false
is_in j (i ∷ order) = if j == i then true else is_in j order

pub record IsOrder (n : ℕ) (order : List ℕ) : Type 0 where
  pub below : All (λ i. i < n) order
  pub complete : (j : ℕ) → j < n → is_in j order ≡ true

-- An argument is missing or does not convert.
abbrev pub IsArgumentError : Thrown → Type 0
IsArgumentError t =
    (t ≡ other_exception (codes "Parameter not found"))
    ⊎ (t ≡ other_exception (codes "Cannot convert parameter"))

argument_error-IsArgumentError :
    (converts : Text → Bool) (o : Option Text) {t : Thrown}
    → argument_error converts o ≡ some t
    → IsArgumentError t
argument_error-IsArgumentError converts none h = inl cc
argument_error-IsArgumentError converts (some arg) {t} h = by (converts arg) h
  where
    by :
        (b : Bool)
        → (if b then none else some (other_exception (codes "Cannot convert parameter"))) ≡ some t
        → IsArgumentError t
    by true h = absurd cc
    by false h = inr cc

module _ (args : List Text) where
  abbrev value_at : ℕ → Text
  value_at i = argument (get_elem? args i)

  abbrev filled : List ℕ → (ℕ → Text) → ℕ → Text
  filled [] bound = bound
  filled (i ∷ order) bound = filled order (bind_arg i (value_at i) bound)

  filled-value_at :
      (order : List ℕ) (bound : ℕ → Text) (j : ℕ)
      → (bound j ≡ value_at j) ⊎ (is_in j order ≡ true)
      → filled order bound j ≡ value_at j
  filled-value_at [] bound j (inl h) = h
  filled-value_at [] bound j (inr h) = absurd cc
  filled-value_at (i ∷ order) bound j h =
      filled-value_at order (bind_arg i (value_at i) bound) j (elim (Bool-cases (j == i)) [
        | inl e ↦ inl (rw e (ap value_at (sym ((==_iff j i).0 e))))
        | inr e ↦ elim h [ inl same ↦ inl (rw e same) | inr member ↦ inr (rw e at member) ]
      ])

  args_from_same :
      (types : List (Text → Bool)) (n : ℕ) (bound : ℕ → Text)
      → ((j : ℕ) → j < n + length types → bound j ≡ value_at j)
      → args_from n types bound ≡ args_from n types value_at
  args_from_same [] n bound h = refl
  args_from_same (converts ∷ types) n bound h =
      ap₂ (◌∷◌) (h n (omega arith)) (args_from_same types (suc n) bound λ j less. h j (omega arith))

  -- The arguments from an index on convert.
  abbrev AllConvert : ℕ → List (Text → Bool) → Type 0
  AllConvert n [] = Unit
  AllConvert n (converts ∷ types) =
      (argument_error converts (get_elem? args n) ≡ none) × AllConvert (suc n) types

  abbrev error_at : ℕ → List (Text → Bool) → ℕ → Option Thrown
  error_at n types k = argument_error (converts_at types k) (get_elem? args (n + k))

  AllConvert-error_at :
      (types : List (Text → Bool)) (n k : ℕ)
      → AllConvert n types
      → k < length types
      → error_at n types k ≡ none
  AllConvert-error_at [] n k good less = absurd (omega arith)
  AllConvert-error_at (converts ∷ types) n zero good less = rw add-zero good.0
  AllConvert-error_at (converts ∷ types) n (suc k) good less =
      let behind : suc n + k ≡ n + suc k = omega arith in
      subst (λ i. argument_error (converts_at types k) (get_elem? args i) ≡ none) behind
        (AllConvert-error_at types (suc n) k good.1 (omega arith))

module _ {S : Type 0} where
  -- A `REGEX_PARAM` for each argument, in order, in front of the rest of the body.
  abbrev pub regex_params : List (Text → Bool) → (List Text → StepBody S) → StepBody S
  regex_params [] f = f []
  regex_params (converts ∷ types) f =
      regex_param converts λ arg. regex_params types λ args. f (arg ∷ args)

  abbrev pub at_index : ℕ → StepRun S → StepRun S
  at_index n r = record r { current_arg_index = n }

  -- Two runs that end alike: they return or throw the same with the same step object and state; or
  -- both throw for an argument, with the same ones but for the index of the next argument.
  pub data SameEnd : Exit (StepRun S) → Exit (StepRun S) → Type 0 where
    same_end : (e : Exit (StepRun S)) → SameEnd e e
    both_fail :
        (t t' : Thrown) (r : StepRun S) (m n : ℕ)
        → IsArgumentError t
        → IsArgumentError t'
        → SameEnd (throws t (at_index m r)) (throws t' (at_index n r))

  -- `REGEX_PARAM`s either all convert, or the run ends at an argument that does not.
  ParamsEnd : List (Text → Bool) → (List Text → StepBody S) → ℕ → StepRun S → Type 0
  ParamsEnd types f n r =
      (AllConvert r.p_args.args n types
        × (run_body (regex_params types f) (at_index n r)
            ≡ run_body (f (args_from n types (value_at r.p_args.args)))
                (at_index (n + length types) r)))
      ⊎ ((k : ℕ) × (t : Thrown) × (m : ℕ) × (k < length types)
          × (error_at r.p_args.args n types k ≡ some t)
          × (run_body (regex_params types f) (at_index n r) ≡ throws t (at_index m r)))

  params_end :
      (types : List (Text → Bool)) (f : List Text → StepBody S) (n : ℕ) (r : StepRun S)
      → ParamsEnd types f n r
  unfolding ParamsEnd regex_param run_body
  params_end [] f n r = inl (tt, rw add-zero refl)
  params_end (converts ∷ types) f n r =
      let arg = get_elem? r.p_args.args n in
      elim (Option-cases (argument_error converts arg)) [
        | inr (t, e) ↦ inr (0, t, n + 1, omega arith, rw add-zero e, rw e refl)
        | inl e ↦
            let rest : ParamsEnd types (λ args. f (argument arg ∷ args)) (suc n) r =
              params_end types (λ args. f (argument arg ∷ args)) (suc n) r in
            let next : n + 1 ≡ suc n = omega arith in
            let behind : suc n + length types ≡ n + suc (length types) = omega arith in
            elim rest [
              | inl (good, run) ↦ inl ((e, good), rw (e, next, ← behind) run)
              | inr (k, t, m, less, bad, run) ↦
                  let at_k : suc n + k ≡ n + suc k = omega arith in
                  inr (suc k, t, m, omega arith, rw at_k at bad, rw (e, next) run)
            ]
      ]

  -- The calls in their order: they all convert, or one of them throws.
  evaluate_args-filled :
      (types : List (Text → Bool)) (order : List ℕ) (bound : ℕ → Text) (f : (ℕ → Text) → StepBody S)
      (r : StepRun S)
      → All (λ i. i < length types) order
      → AllConvert r.p_args.args 0 types
      → run_body (evaluate_args types order bound f) r
        ≡ run_body (f (filled r.p_args.args order bound)) r
  unfolding evaluate_args run_body
  evaluate_args-filled types [] bound f r below good = refl
  evaluate_args-filled types (i ∷ order) bound f r (less, below) good =
      let fine = rw zero-add at (AllConvert-error_at r.p_args.args types 0 i good less) in
      rw fine (
        evaluate_args-filled types order (bind_arg i (value_at r.p_args.args i) bound) f r below
          good)

  evaluate_args-throws :
      (types : List (Text → Bool)) (order : List ℕ) (bound : ℕ → Text) (f : (ℕ → Text) → StepBody S)
      (r : StepRun S) (k : ℕ) (t : Thrown)
      → is_in k order ≡ true
      → argument_error (converts_at types k) (get_elem? r.p_args.args k) ≡ some t
      → (t' : Thrown) × IsArgumentError t'
        × (run_body (evaluate_args types order bound f) r ≡ throws t' r)
  unfolding evaluate_args run_body
  evaluate_args-throws types [] bound f r k t member bad = absurd cc
  evaluate_args-throws types (i ∷ order) bound f r k t member bad =
      let arg = get_elem? r.p_args.args i in
      elim (Option-cases (argument_error (converts_at types i) arg)) [
        | inr (t', e) ↦ (t', argument_error-IsArgumentError (converts_at types i) arg e, rw e refl)
        | inl e ↦ elim (Bool-cases (k == i)) [
          | inl here ↦
              let same : k ≡ i = (==_iff k i).0 here in
              let gone : none ≡ some t = sym e ∙ rw same at bad in absurd cc
          | inr there ↦
              let (t', is_error, run) =
                evaluate_args-throws types order (bind_arg i (argument arg) bound) f r k t
                  (rw there at member) bad in
              (t', is_error, rw e run)
        ]
      ]

  -- In whatever order the program evaluates the calls for the arguments of a step, the step ends as
  -- the one does that takes them by `REGEX_PARAM` from left to right: it returns or throws the same,
  -- with the same step object and state; or each of the two throws that an argument is missing or
  -- does not convert, with the same ones but for the index of the next argument.
  pub invoke_with_args-SameEnd :
      (types : ArgTypes) (f : List Text → StepBody S) (args : InvokeArgs) (store : S)
      → IsOrder (length types.converts) types.order
      → SameEnd
          (run_body (invoke_with_args types f) (started args store))
          (run_body (regex_params types.converts f) (started args store))
  unfolding invoke_with_args invoke_with_indexed_args run_body ParamsEnd
  invoke_with_args-SameEnd types f args store ordered =
      let n = length types.converts in
      let r : StepRun S = started args store in
      let g : (ℕ → Text) → StepBody S = λ bound. f (args_from 0 types.converts bound) in
      elim (params_end types.converts f 0 r) [
        | inl (good, run) ↦
            let indexed =
              evaluate_args-filled types.converts types.order (λ i. []) g (at_index n r)
                ordered.below good in
            let same =
              args_from_same args.args types.converts 0 (filled args.args types.order (λ i. []))
                λ j less.
                  filled-value_at args.args types.order (λ i. []) j
                    (inr (ordered.complete j (rw zero-add at less))) in
            let both =
              indexed ∙ ap (λ xs. run_body (f xs) (at_index n r)) same ∙ sym (rw zero-add at run) in
            subst (SameEnd (run_body (invoke_with_args types f) r)) both
              (same_end (run_body (invoke_with_args types f) r))
        | inr (k, t, m, less, bad, run) ↦
            let here = rw zero-add at bad in
            let (t', is_error, thrown) =
              evaluate_args-throws types.converts types.order (λ i. []) g (at_index n r) k t
                (ordered.complete k less) here in
            rw (thrown, run)
              (both_fail t' t r n m is_error (
                argument_error-IsArgumentError (converts_at types.converts k)
                  (get_elem? args.args k) here))
      ]

  -- With no argument or one, both give the same result and leave the same state.
  pub invoke-no_types :
      (f : List Text → StepBody S) (args : InvokeArgs) (store : S)
      → invoke gtest (cuke_object no_types f) args store ≡ invoke gtest (f []) args store
  unfolding invoke invoke_step_body cuke_object run_body
  invoke-no_types f args store = refl

  pub invoke-one_type :
      (converts : Text → Bool) (f : List Text → StepBody S) (args : InvokeArgs) (store : S)
      → invoke gtest (cuke_object (one_type converts) f) args store
        ≡ invoke gtest (regex_param converts λ arg. f (arg ∷ [])) args store
  unfolding invoke invoke_step_body cuke_object regex_param run_body
  invoke-one_type converts f args store = refl
