-- ===== src/Examples/ActiveActors/Tests.antt =====
-- The table step of the showcase, with a name twice.
use cucumber_cpp.Base.{ℕ, ◌≡◌, refl, none, some, List, [], ◌∷◌, Text, codes, lookup, map, All}
use cucumber_cpp.Commands.{World}
use cucumber_cpp.Step.Body.{InvokeArgs}
use cucumber_cpp.Engine.{read_digits}
use cucumber_cpp.Examples.ActiveActors.{Actors}
use cucumber_cpp.Examples.ActiveActors.Steps.{Platform}
use cucumber_cpp.Examples.ActiveActors.Years.{Entry, IsEntry, last_year}
use cucumber_cpp.Examples.ActiveActors.Active.{Activates, actors_are_active-last_year}

abbrev platform : Platform
platform = record {
  to_year = λ s. some (read_digits s 0);
  no_key = codes "map::at";
  assert_eq = λ a b. none;
  undefined = λ actors. (actors, none);
}

abbrev entry : Text → Text → ℕ → Entry platform
entry name year_text year = record {
  row = (codes "name", name) ∷ (codes "born", year_text) ∷ [];
  name = name;
  year_text = year_text;
  year = year;
}

abbrev entries : List (Entry platform)
entries =
    entry (codes "Al") (codes "1940") 1940
    ∷ entry (codes "Bob") (codes "1943") 1943
    ∷ entry (codes "Al") (codes "1941") 1941
    ∷ []

entries-IsEntry : All (IsEntry platform) entries
unfolding lookup read_digits
entries-IsEntry = (
  record { named = refl; born = refl; read = refl },
  (
    record { named = refl; born = refl; read = refl },
    (record { named = refl; born = refl; read = refl }, tt),
  ),
)

abbrev args : InvokeArgs
args = record {
  table_arg = record {
    columns = codes "name" ∷ codes "born" ∷ [];
    rows = map (λ e. e.row) entries;
  };
  args = [];
}

abbrev world : World (ℕ → Actors)
world = record {
  contexts = record { contexts = []; held = []; references = λ t. none; next_object = 0 };
  user = λ o. [];
}

actors_are_active-last_year_example : Activates platform 0 entries args world
actors_are_active-last_year_example =
    actors_are_active-last_year platform 0 entries args world entries-IsEntry refl

last_year_example : last_year platform (codes "Al") entries ≡ some 1941
last_year_example = refl
