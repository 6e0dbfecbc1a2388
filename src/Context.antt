-- ===== src/Context.antt =====
-- include/cucumber-cpp/internal/ContextManager.hpp and src/ContextManager.cpp: the objects that live
-- as long as a scenario. Objects are numbers; a type `T` of `ScenarioScope<T>` is a number too.
pub mod Lifetime
mod Tests
use cucumber_cpp.Base.{
  ℕ, suc, ◌+◌, Bool, true, false, not, ◌||◌, Option, none, some, List, [], ◌∷◌, ◌++◌, ◌==◌,
  if◌then◌else◌,
}

-- `contexts`, the vector of owners; `held`, the owners inside the `ScenarioScope` objects that are
-- alive; `references`, the weak reference of each type; and the next fresh object.
pub record Contexts : Type 0 where
  pub contexts : List ℕ
  pub held : List ℕ
  pub references : ℕ → Option ℕ
  pub next_object : ℕ

abbrev pub owns : List ℕ → ℕ → Bool
owns [] o = false
owns (x ∷ xs) o = if x == o then true else owns xs o

-- `weak_ptr::expired`: nobody owns the object, or there never was one.
unfoldable pub expired : Contexts → Option ℕ → Bool
expired c none = true
expired c (some o) = not (owns c.contexts o || owns c.held o)

-- `ContextManager::addContext<T>`.
unfoldable pub add_context : Contexts → Contexts × ℕ
add_context c = (
  record c { contexts = c.contexts ++ c.next_object ∷ []; next_object = suc c.next_object },
  c.next_object,
)

unfoldable pub set_reference : ℕ → ℕ → Contexts → Contexts
set_reference t o c = record c { references = λ u. if u == t then some o else c.references u }

-- The constructor of `ScenarioScope<T>`: a new object if the old one is gone, and `lock`.
unfoldable pub refresh : ℕ → Contexts → Contexts
unfolding expired add_context set_reference
refresh t c =
    if expired c (c.references t) then (let (c', o) = add_context c in set_reference t o c') else c

abbrev pub hold : Contexts → Option ℕ → Contexts × Option ℕ
hold c none = (c, none)
hold c (some o) = (record c { held = o ∷ c.held }, some o)

unfoldable pub scenario_scope : ℕ → Contexts → Contexts × Option ℕ
unfolding refresh
scenario_scope t c = let c' = refresh t c in hold c' (c'.references t)

abbrev pub remove_one : ℕ → List ℕ → List ℕ
remove_one o [] = []
remove_one o (x ∷ xs) = let rest = remove_one o xs in if x == o then xs else x ∷ rest

-- The destructor of a `ScenarioScope` that holds an object.
unfoldable pub release_scope : ℕ → Contexts → Contexts
release_scope o c = record c { held = remove_one o c.held }

unfoldable pub purge_contexts : Contexts → Contexts
purge_contexts c = record c { contexts = [] }
