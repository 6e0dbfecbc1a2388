-- ===== src/Step/Registry.antt =====
-- The registered steps: ids in ascending order, lookup, and the matches of a description.
use cucumber_cpp.Base.{
  ℕ, ◌<◌, ◌≡◌, ◌∙◌, refl, sym, Bool, true, false, Option, none, some, List, [], ◌∷◌, ◌++◌, ◌==◌,
  ltb, arith, if◌then◌else◌, All, if_cases, or_else, or_else-none_right, append-nil, append_assoc,
  Text,
}
use cucumber_cpp.Regex.{RegexEngine}
use cucumber_cpp.Step.Manager.{
  StepInfo, SingleStepMatch, insert_step, get_step, add_match, matches_from, step_match,
  step_matches,
}

-- The first of two elements that pass, where the first one is new, or has the place of the other.
before :
    {A : Type 0} (b c : Bool) (x y : A) (o : Option A)
    → (b ≡ true → (c ≡ false) × (o ≡ none))
    → (if b then some x else if c then some y else o)
      ≡ or_else (if c then some y else o) (if b then some x else none)
before true c x y o h = rw ((h refl).0, (h refl).1) refl
before false c x y o h = sym (or_else-none_right (if c then some y else o))

taken :
    {A : Type 0} (b c : Bool) (x y : A) (o : Option A)
    → (b ≡ true → c ≡ true)
    → (if c then some y else o) ≡ or_else (if c then some y else o) (if b then some x else none)
taken true c x y o h = rw (h refl) refl
taken false c x y o h = sym (or_else-none_right (if c then some y else o))

behind :
    {A : Type 0} (c : Bool) (y : A) (o : Option A) (new : Option A) {r : Option A}
    → r ≡ or_else o new
    → (if c then some y else r) ≡ or_else (if c then some y else o) new
behind true y o new h = refl
behind false y o new h = h

module _ {S : Type 0} where
  -- The order of `std::map`: each step has a smaller id than those behind it.
  abbrev pub IsAscending : List (StepInfo S) → Type 0
  IsAscending [] = Unit
  IsAscending (s ∷ steps) = All (λ t. s.id < t.id) steps × IsAscending steps

  All-below :
      (i : ℕ) (s : StepInfo S) (steps : List (StepInfo S))
      → i < s.id
      → All (λ t. i < t.id) steps
      → All (λ t. i < t.id) (insert_step s steps)
  unfolding insert_step
  All-below i s [] l a = (l, tt)
  All-below i s (t ∷ steps) l a =
      if_cases (All (λ u. i < u.id)) (ltb s.id t.id) (λ _. (l, a))
        (λ _.
          if_cases (All (λ u. i < u.id)) (s.id == t.id) (λ _. a)
            (λ _. (a.0, All-below i s steps l a.1)))

  All-above :
      (i j : ℕ) (steps : List (StepInfo S))
      → i < j
      → All (λ t. j < t.id) steps
      → All (λ t. i < t.id) steps
  All-above i j [] l a = tt
  All-above i j (t ∷ steps) l a = (omega (arith, a.0), All-above i j steps l a.1)

  -- The insertion of a step keeps the steps in strictly ascending order of their ids.
  pub insert_step-IsAscending :
      (s : StepInfo S) (steps : List (StepInfo S))
      → IsAscending steps
      → IsAscending (insert_step s steps)
  unfolding insert_step
  insert_step-IsAscending s [] a = (tt, tt)
  insert_step-IsAscending s (t ∷ steps) a =
      if_cases IsAscending (ltb s.id t.id)
        (λ l. ((ground (arith, l), All-above s.id t.id steps (ground (arith, l)) a.0), a))
        (λ l.
          if_cases IsAscending (s.id == t.id) (λ _. a)
            (λ d. (
              All-below t.id s steps (ground (arith, l, d)) a.0,
              insert_step-IsAscending s steps a.1,
            )))

  get_step_above :
      (i : ℕ) (steps : List (StepInfo S)) → All (λ t. i < t.id) steps → get_step i steps ≡ none
  unfolding get_step
  get_step_above i [] a = refl
  get_step_above i (t ∷ steps) a = ground (arith, a.0, get_step_above i steps a.1)

  -- Lookup behind an insertion into ordered steps: an id that is taken keeps its step, the new step
  -- is found under its own id otherwise, and every other id is found as before.
  pub get_step-insert_step :
      (i : ℕ) (s : StepInfo S) (steps : List (StepInfo S))
      → IsAscending steps
      → get_step i (insert_step s steps)
        ≡ or_else (get_step i steps) (if s.id == i then some s else none)
  unfolding get_step insert_step
  get_step-insert_step i s [] a = ground arith
  get_step-insert_step i s (t ∷ steps) a =
      if_cases (λ x. get_step i x ≡ wanted) (ltb s.id t.id)
        (λ l. before (s.id == i) (t.id == i) s t (get_step i steps) (λ e. (
          ground (arith, l, e),
          get_step_above i steps (All-above i t.id steps (ground (arith, l, e)) a.0),
        )))
        (λ l.
          if_cases (λ x. get_step i x ≡ wanted) (s.id == t.id)
            (λ d. taken (s.id == i) (t.id == i) s t (get_step i steps) (λ e. ground (arith, d, e)))
            (λ d.
              behind (t.id == i) t (get_step i steps) (if s.id == i then some s else none)
                (get_step-insert_step i s steps a.1)))
    where
      wanted : Option (StepInfo S)
      wanted = or_else (get_step i (t ∷ steps)) (if s.id == i then some s else none)

  -- The matches, step by step in the order of the registry.
  abbrev pub matches_in_order : RegexEngine → Text → List (StepInfo S) → List (SingleStepMatch S)
  matches_in_order engine description [] = []
  matches_in_order engine description (s ∷ steps) =
      add_match (step_match engine description s) [] ++ matches_in_order engine description steps

  matches_from_lem :
      (engine : RegexEngine) (description : Text) (steps : List (StepInfo S))
      (matches : List (SingleStepMatch S))
      → matches_from engine description steps matches
        ≡ matches ++ matches_in_order engine description steps
  unfolding matches_from
  matches_from_lem engine description [] matches = sym (append-nil matches)
  matches_from_lem engine description (s ∷ steps) matches =
      matches_from_lem engine description steps
        (add_match (step_match engine description s) matches)
      ∙ added (step_match engine description s)
    where
      added :
          (m : Option (SingleStepMatch S))
          → add_match m matches ++ matches_in_order engine description steps
            ≡ matches ++ (add_match m [] ++ matches_in_order engine description steps)
      added none = refl
      added (some m) = append_assoc matches (m ∷ []) _

  -- The matches of a description are those of the steps one by one, in the order of the ids.
  pub step_matches-in_order :
      (engine : RegexEngine) (description : Text) (steps : List (StepInfo S))
      → step_matches engine description steps ≡ matches_in_order engine description steps
  unfolding step_matches
  step_matches-in_order engine description steps = matches_from_lem engine description steps []
