-- ===== src/Context/Tests.antt =====
-- Scopes of three types.
use cucumber_cpp.Base.{◌≡◌, none, [], ◌∷◌}
use cucumber_cpp.Context.{Contexts, scenario_scope}
use cucumber_cpp.Context.Lifetime.{make_scopes, scenario_scope_shared}

abbrev fresh : Contexts
fresh = record { contexts = []; held = []; references = λ t. none; next_object = 0 }

scenario_scope_shared_example :
    (scenario_scope 1 (make_scopes (2 ∷ 1 ∷ 3 ∷ []) (scenario_scope 1 fresh).0)).1
    ≡ (scenario_scope 1 fresh).1
scenario_scope_shared_example = scenario_scope_shared 1 (2 ∷ 1 ∷ 3 ∷ []) fresh
