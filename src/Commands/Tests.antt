-- ===== src/Commands/Tests.antt =====
-- A program with one throwing hook, and a snippet.
use cucumber_cpp.Base.{refl, ℕ, ◌≡◌, none, some, [], ◌∷◌, ◌++◌, codes}
use cucumber_cpp.Tag.{no_tags}
use cucumber_cpp.Step.Body.{unknown_object, throws}
use cucumber_cpp.Hook.Registrar.{Hooks}
use cucumber_cpp.Commands.{World, initial, end_scenario}
use cucumber_cpp.Commands.Snippet.{escape_c_string, read_c_string}
use cucumber_cpp.Commands.Literal.{read_c_string-escape_c_string}
use cucumber_cpp.Commands.Lifecycle.{Ended, end_scenario-Ended}

abbrev world : World ℕ
world = record {
  contexts = record { contexts = 0 ∷ []; held = []; references = λ t. none; next_object = 1 };
  user = 7;
}

-- An after hook that throws.
abbrev hooks : Hooks (World ℕ)
hooks = record {
  before_all_hooks = [];
  before_hooks = [];
  around_step_hooks = [];
  after_step_hooks = [];
  after_hooks = record { tag_expression = no_tags; body = λ w. throws unknown_object w } ∷ [];
  after_all_hooks = [];
}

end_scenario-Ended_example : Ended hooks (initial world) (end_scenario hooks (initial world))
end_scenario-Ended_example = end_scenario-Ended hooks (initial world)

read_c_string-escape_c_string_example :
    read_c_string (escape_c_string (codes "say \"a\\b\"") ++ b'"' ∷ codes ") {")
    ≡ some (codes "say \"a\\b\"", codes ") {")
read_c_string-escape_c_string_example =
    read_c_string-escape_c_string (codes "say \"a\\b\"") (codes ") {")
      (refl, (refl, (refl, (refl, (refl, (refl, (refl, (refl, (refl, tt)))))))))
