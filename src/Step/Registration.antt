-- ===== src/Step/Registration.antt =====
-- What `registerStep` does to the registry, as long as the ids do not wrap around.
use cucumber_cpp.Base.{
  ℕ, ◌+◌, ◌%◌, ◌<◌, ◌≤◌, ◌≡◌, ◌≢◌, ◌∙◌, refl, sym, none, some, List, [], ◌∷◌, ◌==◌, ltb, ==_iff,
  ==_refl, arith, All, if_cases, or_else, or_else-none_right, Text,
}
use cucumber_cpp.Expression.Error.{ok}
use cucumber_cpp.Expression.Types.{TypeMap}
use cucumber_cpp.Regex.{RegexEngine}
use cucumber_cpp.Step.Body.{StepBody}
use cucumber_cpp.Step.Drivers.{Driver}
use cucumber_cpp.Step.Manager.{
  StepInfo, Registry, id_limit, get_regex_string, to_source_string, insert_step, add_step,
  make_step, register_step, get_step,
}
use cucumber_cpp.Step.Registry.{IsAscending, insert_step-IsAscending, get_step-insert_step}

module _ {S : Type 0} where
  -- The steps are in the order of their ids, and no id is above the counter.
  pub record IsRegistry (m : Registry S) : Type 0 where
    pub ascending : IsAscending m.steps
    pub counted : All (λ s. s.id ≤ m.current_id) m.steps

  All-insert_step :
      (P : StepInfo S → Type 0) (s : StepInfo S) (steps : List (StepInfo S))
      → P s
      → All P steps
      → All P (insert_step s steps)
  unfolding insert_step
  All-insert_step P s [] h a = (h, tt)
  All-insert_step P s (t ∷ steps) h a =
      if_cases (All P) (ltb s.id t.id) (λ _. (h, a))
        (λ _.
          if_cases (All P) (s.id == t.id) (λ _. a) (λ _. (a.0, All-insert_step P s steps h a.1)))

  All-grown :
      (n : ℕ) (steps : List (StepInfo S))
      → All (λ s. s.id ≤ n) steps
      → All (λ s. s.id ≤ n + 1) steps
  All-grown n [] a = tt
  All-grown n (s ∷ steps) a = (omega (arith, a.0), All-grown n steps a.1)

  get_step_unused :
      (n i : ℕ) (steps : List (StepInfo S))
      → All (λ s. s.id ≤ n) steps
      → n < i
      → get_step i steps ≡ none
  unfolding get_step
  get_step_unused n i [] a l = refl
  get_step_unused n i (s ∷ steps) a l = ground (arith, a.0, get_step_unused n i steps a.1 l)

  -- The registry behind the registration of a step: the step is found under its id, every other id
  -- is found as before, and the order and the counter are kept.
  pub record Registers (s : StepInfo S) (m m' : Registry S) : Type 0 where
    pub found : get_step s.id m'.steps ≡ some s
    pub others : (i : ℕ) → i ≢ s.id → get_step i m'.steps ≡ get_step i m.steps
    pub kept : IsRegistry m'

  insert_step-Registers :
      (s : StepInfo S) (m : Registry S)
      → IsRegistry m
      → s.id ≡ m.current_id + 1
      → Registers s m (record { current_id = s.id; steps = insert_step s m.steps })
  insert_step-Registers s m inv e = record {
    found =
        get_step-insert_step s.id s m.steps inv.ascending
        ∙ rw
            (get_step_unused m.current_id s.id m.steps inv.counted (omega (arith, e)), ==_refl s.id)
            refl;
    others = λ i d.
        get_step-insert_step i s m.steps inv.ascending
        ∙ if_cases (λ o. or_else (get_step i m.steps) o ≡ get_step i m.steps) (s.id == i)
            (λ same. absurd (d (sym ((==_iff s.id i).0 same))))
            (λ _. or_else-none_right (get_step i m.steps));
    kept = record {
      ascending = insert_step-IsAscending s m.steps inv.ascending;
      counted =
          All-insert_step (λ t. t.id ≤ s.id) s m.steps (omega arith)
            (rw e (All-grown m.current_id m.steps inv.counted));
    };
  }

  module _ (engine : RegexEngine) (types : TypeMap) (driver : Driver S) (body : StepBody S) where
    -- The step that is made for a matcher.
    abbrev pub made : Text → Text → Text → ℕ → Registry S → StepInfo S
    made step_matcher regex file line m = record {
      id = (m.current_id + 1) % id_limit;
      regex = regex;
      source = to_source_string file line;
      step_def = step_matcher;
      driver = driver;
      body = body;
    }

    -- A step whose matcher has a regex is registered under the next id, while ids are left: it is
    -- found under that id, every other id is found as before, and the registry stays in order.
    pub register_step-Registers :
        (step_matcher regex file : Text) (line : ℕ) (m : Registry S)
        → get_regex_string engine types step_matcher ≡ ok regex
        → m.current_id + 1 < id_limit
        → IsRegistry m
        → let s = made step_matcher regex file line m in
          (m' : Registry S) × (register_step engine types step_matcher file line driver body m
            ≡ ok (m', s.id))
          × (s.id ≡ m.current_id + 1)
          × Registers s m m'
    unfolding register_step make_step add_step
    register_step-Registers step_matcher regex file line m h l inv =
        let e : (m.current_id + 1) % id_limit ≡ m.current_id + 1 = omega (arith, l) in
        (_, rw h refl, e, insert_step-Registers (made step_matcher regex file line m) m inv e)
