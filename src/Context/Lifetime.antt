-- ===== src/Context/Lifetime.antt =====
-- How long the objects of a scenario live, and who shares them.
use cucumber_cpp.Base.{
  ℕ, ◌≡◌, ◌∙◌, refl, ap, true, false, not, ◌||◌, Option, none, some, List, [], ◌∷◌, ◌++◌, ◌==◌,
  ==_iff, ==_refl, arith, if_cases,
}
use cucumber_cpp.Context.{
  Contexts, owns, expired, add_context, set_reference, refresh, hold, scenario_scope,
  purge_contexts,
}

-- The object of a type is registered and has an owner.
pub record IsAlive (t o : ℕ) (c : Contexts) : Type 0 where
  pub registered : c.references t ≡ some o
  pub owned : (owns c.contexts o || owns c.held o) ≡ true

pub owns-append : (o : ℕ) (xs ys : List ℕ) → owns (xs ++ ys) o ≡ (owns xs o || owns ys o)
owns-append o [] ys = refl
owns-append o (x ∷ xs) ys = ground (arith, owns-append o xs ys)

IsAlive-expired : (t o : ℕ) (c : Contexts) → IsAlive t o c → expired c (c.references t) ≡ false
unfolding expired
IsAlive-expired t o c a = rw a.registered (ap not a.owned)

pub alive :
    (c : Contexts) (r : Option ℕ)
    → expired c r ≡ false
    → (o : ℕ) × (r ≡ some o) × ((owns c.contexts o || owns c.held o) ≡ true)
unfolding expired
alive c none h = absurd cc
alive c (some o) h = (o, refl, ground (arith, h))

-- The constructor of a scope leaves a live object.
refresh-IsAlive : (t : ℕ) (c : Contexts) → (o : ℕ) × IsAlive t o (refresh t c)
unfolding refresh add_context set_reference
refresh-IsAlive t c =
    if_cases (λ c'. (o : ℕ) × IsAlive t o c') (expired c (c.references t))
      (λ e. (
        c.next_object,
        record {
          registered = ground (arith, ==_refl t);
          owned = ground (arith, owns-append c.next_object c.contexts (c.next_object ∷ []));
        },
      ))
      (λ e. let (o, r, a) = alive c (c.references t) e in (o, record { registered = r; owned = a }))

-- A live object stays, whatever scope is made.
refresh_keeps : (t o u : ℕ) (c : Contexts) → IsAlive t o c → IsAlive t o (refresh u c)
unfolding refresh add_context set_reference
refresh_keeps t o u c a =
    if_cases (IsAlive t o) (expired c (c.references u))
      (λ e. record {
        registered =
            if_cases (◌≡ some o) (t == u)
              (λ same.
                let here = (==_iff t u).0 same in let alive = IsAlive-expired t o c a in absurd cc)
              (λ _. a.registered);
        owned = ground (arith, a.owned, owns-append o c.contexts (c.next_object ∷ []));
      })
      (λ e. a)

hold_keeps : (t o : ℕ) (c : Contexts) (r : Option ℕ) → IsAlive t o c → IsAlive t o (hold c r).0
hold_keeps t o c none a = a
hold_keeps t o c (some p) a = record { registered = a.registered; owned = ground (arith, a.owned) }

-- A scope of a type whose object is alive has that object.
IsAlive-shared : (t o : ℕ) (c : Contexts) → IsAlive t o c → (scenario_scope t c).1 ≡ some o
unfolding scenario_scope refresh
IsAlive-shared t o c a = rw (IsAlive-expired t o c a) (rw a.registered refl)

-- Scopes of any types, made one after the other.
abbrev pub make_scopes : List ℕ → Contexts → Contexts
make_scopes [] c = c
make_scopes (u ∷ types) c = make_scopes types (scenario_scope u c).0

make_scopes_keep :
    (t o : ℕ) (types : List ℕ) (c : Contexts) → IsAlive t o c → IsAlive t o (make_scopes types c)
unfolding scenario_scope
make_scopes_keep t o [] c a = a
make_scopes_keep t o (u ∷ types) c a =
    make_scopes_keep t o types _ (hold_keeps t o (refresh u c) _ (refresh_keeps t o u c a))

-- Two scopes of one type have one object, whatever scopes are made between them.
pub scenario_scope_shared :
    (t : ℕ) (types : List ℕ) (c : Contexts)
    → (scenario_scope t (make_scopes types (scenario_scope t c).0)).1 ≡ (scenario_scope t c).1
unfolding scenario_scope
scenario_scope_shared t types c =
    let (o, a) = refresh-IsAlive t c in
    IsAlive-shared t o _ (make_scopes_keep t o types _ (hold_keeps t o (refresh t c) _ a))
    ∙ rw a.registered refl

pub expired_purged :
    (c : Contexts) (r : Option ℕ) → c.contexts ≡ [] → c.held ≡ [] → expired c r ≡ true
unfolding expired
expired_purged c none h k = refl
expired_purged c (some o) h k = rw (h, k) refl

-- Once a scenario has ended and no scope is alive, a scope has a new object.
pub scenario_scope-purge_contexts :
    (t : ℕ) (c : Contexts)
    → c.held ≡ []
    → (scenario_scope t (purge_contexts c)).1 ≡ some c.next_object
unfolding scenario_scope purge_contexts refresh set_reference add_context
scenario_scope-purge_contexts t c h =
    rw (expired_purged (purge_contexts c) (c.references t) refl h, ==_refl t) refl
