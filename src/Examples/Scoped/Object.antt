-- ===== src/Examples/Scoped/Object.antt =====
-- What a body does to the object of its scope: bodies that follow each other see one object, and the
-- scopes are gone behind them.
use cucumber_cpp.Base.{
  ℕ, suc, ◌≡◌, ◌∙◌, refl, ap, true, false, not, ◌||◌, Option, none, some, [], ◌∷◌, ◌++◌, ◌==◌,
  if◌then◌else◌, ==_refl, Bool-cases, inl, inr,
}
use cucumber_cpp.Context.{
  owns, expired, add_context, set_reference, refresh, scenario_scope, release_scope, purge_contexts,
}
use cucumber_cpp.Context.Lifetime.{owns-append, alive, expired_purged}
use cucumber_cpp.Commands.{World}
use cucumber_cpp.Step.Body.{Thrown, Exit, returns, throws, StepRun, run_body}
use cucumber_cpp.Examples.Scoped.{
  store_object, make_object, enter_scope, leave_scope, end_body, use_object, within_scope,
}

module _ {A : Type 0} where
  store_object_here : (o : ℕ) (x : A) (objects : ℕ → A) → store_object o x objects o ≡ x
  unfolding store_object
  store_object_here o x objects = rw (==_refl o) refl

  module _ (t : ℕ) (fresh : A) where
    -- What the next scope finds: the value of the object that is alive, or a new one.
    abbrev pub value_of : Option ℕ → (ℕ → A) → A
    value_of none objects = fresh
    value_of (some o) objects = objects o

    abbrev pub current : World (ℕ → A) → A
    current w =
        if expired w.contexts (w.contexts.references t)
        then fresh
        else value_of (w.contexts.references t) w.user

    abbrev left : ℕ → A → World (ℕ → A) → World (ℕ → A)
    left o x w = leave_scope t fresh o (record w { user = store_object o x w.user })

    -- A scope has an object with the current value; what is stored in it is the current value behind
    -- the scope, and the scope holds no object any more.
    record Entered (w w' : World (ℕ → A)) (o : ℕ) : Type 0 where
      entered : enter_scope t fresh w ≡ (w', some o)
      found : w'.user o ≡ current w
      stored : (x : A) → current (left o x w') ≡ x
      held : (x : A) → (left o x w').contexts.held ≡ w.contexts.held

    -- The world inside the scope of a new object.
    abbrev with_new : World (ℕ → A) → World (ℕ → A)
    with_new w =
        let o = w.contexts.next_object in
        record {
          contexts = record {
            contexts = w.contexts.contexts ++ o ∷ [];
            held = o ∷ w.contexts.held;
            references = λ u. if u == t then some o else w.contexts.references u;
            next_object = suc o;
          };
          user = store_object o fresh w.user;
        }

    abbrev with_old : ℕ → World (ℕ → A) → World (ℕ → A)
    with_old o w = record w { contexts = record w.contexts { held = o ∷ w.contexts.held } }

    enter_scope_new :
        (w : World (ℕ → A))
        → expired w.contexts (w.contexts.references t) ≡ true
        → Entered w (with_new w) w.contexts.next_object
    unfolding enter_scope make_object scenario_scope refresh add_context set_reference leave_scope
        release_scope expired
    enter_scope_new w e = record {
      entered = rw (e, ==_refl t) refl;
      found = store_object_here w.contexts.next_object fresh w.user ∙ rw e refl;
      stored = λ x.
          rw
            (
              ==_refl t,
              owns-append w.contexts.next_object w.contexts.contexts (w.contexts.next_object ∷ []),
              ==_refl w.contexts.next_object,
            )
            (elim (owns w.contexts.contexts w.contexts.next_object)
              as (λ b.
                (if not (b || true || owns w.contexts.held w.contexts.next_object)
                  then fresh
                  else x)
                ≡ x) [ true ↦ refl | false ↦ refl ]);
      held = λ x. rw (==_refl w.contexts.next_object) refl;
    }

    stored_old :
        (w : World (ℕ → A)) (o : ℕ)
        → expired w.contexts (w.contexts.references t) ≡ false
        → w.contexts.references t ≡ some o
        → (x : A) → current (left o x (with_old o w)) ≡ x
    unfolding leave_scope release_scope
    stored_old w o e r x =
        let same : expired (left o x (with_old o w)).contexts (w.contexts.references t) ≡ false =
          rw (r, ==_refl o) (rw r at e) in
        rw (same, r) (store_object_here o x w.user)

    enter_scope_old :
        (w : World (ℕ → A)) (o : ℕ)
        → expired w.contexts (w.contexts.references t) ≡ false
        → w.contexts.references t ≡ some o
        → Entered w (with_old o w) o
    unfolding enter_scope make_object scenario_scope refresh leave_scope release_scope
    enter_scope_old w o e r = record {
      entered = rw (e, r) refl;
      found = rw (e, r) refl;
      stored = stored_old w o e r;
      held = λ x. rw (==_refl o) refl;
    }

    enter_scope-Entered : (w : World (ℕ → A)) → (w' : World (ℕ → A)) × (o : ℕ) × Entered w w' o
    enter_scope-Entered w = elim (Bool-cases (expired w.contexts (w.contexts.references t))) [
      | inl e ↦ (with_new w, w.contexts.next_object, enter_scope_new w e)
      | inr e ↦
          let (o, r, owned) = alive w.contexts (w.contexts.references t) e in
          (with_old o w, o, enter_scope_old w o e r)
    ]

    -- How a body ends that does something to the object of its scope.
    abbrev pub body_end : Option Thrown → StepRun (World (ℕ → A)) → Exit (StepRun (World (ℕ → A)))
    body_end none r = returns r
    body_end (some thrown) r = throws thrown r

    -- Behind the body no scope is left, and the current value is what the body made of it.
    pub record Uses (x : A) (w w' : World (ℕ → A)) : Type 0 where
      pub made : current w' ≡ x
      pub held : w'.contexts.held ≡ w.contexts.held

    run_body-end_body :
        (thrown : Option Thrown) (r : StepRun (World (ℕ → A)))
        → run_body (end_body t fresh thrown) r ≡ body_end thrown r
    unfolding run_body
    run_body-end_body none r = refl
    run_body-end_body (some thrown) r = refl

    module _ (action : A → A × Option Thrown) (r : StepRun (World (ℕ → A))) where
      inside : World (ℕ → A) × Option ℕ → Exit (StepRun (World (ℕ → A)))
      inside (w, o) = run_body (use_object t fresh action o) (record r { store = w })

      run_body_entered :
          run_body (within_scope t fresh action) r ≡ inside (enter_scope t fresh r.store)
      unfolding run_body within_scope inside
      run_body_entered = refl

      inside_object :
          (w' : World (ℕ → A)) (o : ℕ)
          → inside (w', some o)
            ≡ body_end
                (action (w'.user o)).1
                (record r { store = left o (action (w'.user o)).0 w' })
      unfolding inside run_body use_object
      inside_object w' o = run_body-end_body (action (w'.user o)).1 _

      -- The body ends as what it does to the current value says, whatever scopes there are.
      pub run_body-within_scope :
          (w' : World (ℕ → A)) × (run_body (within_scope t fresh action) r
            ≡ body_end (action (current r.store)).1 (record r { store = w' }))
          × Uses (action (current r.store)).0 r.store w'
      run_body-within_scope =
          let (w', o, h) = enter_scope-Entered r.store in
          (
            left o (action (current r.store)).0 w',
            run_body_entered
                ∙ ap inside h.entered
                ∙ inside_object w' o
                ∙ ap (λ x. body_end (action x).1 (record r { store = left o (action x).0 w' }))
                    h.found,
            record { made = h.stored _; held = h.held _ },
          )

    -- Between scenarios no object is alive, and the next scope has a new one.
    pub current-purge_contexts :
        (w : World (ℕ → A))
        → w.contexts.held ≡ []
        → current (record w { contexts = purge_contexts w.contexts }) ≡ fresh
    unfolding purge_contexts
    current-purge_contexts w h =
        rw (expired_purged (purge_contexts w.contexts) (w.contexts.references t) refl h) refl
