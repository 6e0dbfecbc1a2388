-- ===== src/Engine/Tests.antt =====
-- An id on its way to the client and back, and the arguments of a step with a table.
use cucumber_cpp.Base.{arith, ◌≡◌, arith, some, List, [], ◌∷◌, All, length, Text, codes}
use cucumber_cpp.Step.Body.{InvokeArgs}
use cucumber_cpp.Engine.{id_to_string, convert_id, command_args}
use cucumber_cpp.Engine.Arguments.{IsTaken, command_args_iff}
use cucumber_cpp.Engine.Ids.{convert_id-id_to_string}

convert_id-id_to_string_example : convert_id 77 (id_to_string 4096) ≡ 4096
convert_id-id_to_string_example = convert_id-id_to_string 77 4096 (omega arith)

abbrev rows : List (List Text)
rows = (codes "Ada" ∷ codes "36" ∷ []) ∷ []

command_args_iff_example :
    let wide : Type 0 = All (λ row. length (codes "name" ∷ codes "age" ∷ []) ≡ length row) rows in
    (((a : InvokeArgs) × (command_args (codes "x" ∷ []) ((codes "name" ∷ codes "age" ∷ []) ∷ rows)
          ≡ some a))
      → wide)
    × (wide
        → (a : InvokeArgs) × (command_args
              (codes "x" ∷ [])
              ((codes "name" ∷ codes "age" ∷ []) ∷ rows)
            ≡ some a)
          × IsTaken (codes "x" ∷ []) (codes "name" ∷ codes "age" ∷ []) 1 a)
command_args_iff_example = command_args_iff (codes "x" ∷ []) (codes "name") (codes "age" ∷ []) rows
