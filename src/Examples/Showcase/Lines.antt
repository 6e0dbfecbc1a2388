-- ===== src/Examples/Showcase/Lines.antt =====
-- The lines that hooks write, by the tags of the scenario.
use cucumber_cpp.Base.{
  ◌≡◌, ◌∙◌, refl, sym, ap, Bool, Bool-cases, inl, inr, Option, List, [], ◌∷◌, ◌++◌, append_assoc,
  append-nil, if◌then◌else◌, map, Text,
}
use cucumber_cpp.Tag.{AndTagExpression}
use cucumber_cpp.Step.Body.{returns}
use cucumber_cpp.Hook.Registrar.{Scenario, Hook, tags_match, invoke_hook, exec_hooks}
use cucumber_cpp.Examples.Showcase.{Written, print, say}

-- A hook that writes a line if its tags match.
abbrev pub Row : Type 0
Row = AndTagExpression × Text

abbrev pub row_hook : Row → Hook Written
row_hook (expression, line) = record { tag_expression = expression; body = say line }

abbrev pub line_if : Bool → Text → List Text
line_if b line = if b then line ∷ [] else []

abbrev pub lines_of : List Row → Option Scenario → List Text
lines_of [] scenario = []
lines_of ((expression, line) ∷ rows) scenario =
    line_if (tags_match scenario expression) line ++ lines_of rows scenario

abbrev pub wrote : List Text → Written → Written
wrote lines w = record w { user = w.user ++ lines }

wrote-nil : (w : Written) → wrote [] w ≡ w
wrote-nil w = ap (λ lines. record w { user = lines }) (append-nil w.user)

invoke_hook-row_hook :
    (row : Row) (scenario : Option Scenario) (w : Written)
    → invoke_hook scenario (row_hook row) w
      ≡ returns (wrote (line_if (tags_match scenario row.0) row.1) w)
unfolding invoke_hook say print
invoke_hook-row_hook (expression, line) scenario w =
    elim (Bool-cases (tags_match scenario expression)) [
      | inl e ↦ rw e refl
      | inr e ↦ rw e (ap returns (sym (wrote-nil w)))
    ]

-- A row of such hooks writes the lines of those whose tags match, in its order.
pub exec_hooks-rows :
    (rows : List Row) (scenario : Option Scenario) (w : Written)
    → exec_hooks (map row_hook rows) scenario w ≡ returns (wrote (lines_of rows scenario) w)
unfolding exec_hooks
exec_hooks-rows [] scenario w = ap returns (sym (wrote-nil w))
exec_hooks-rows (row ∷ rows) scenario w = rw (invoke_hook-row_hook row scenario w) (
    exec_hooks-rows rows scenario _
    ∙ ap (λ lines. returns (record w { user = lines }))
        (append_assoc w.user (line_if (tags_match scenario row.0) row.1) (lines_of rows scenario)))
