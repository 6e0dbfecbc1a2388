-- ===== src/Table/Tests.antt =====
-- Tables with two columns, and the theorems at them.
use cucumber_cpp.Base.{◌≡◌, refl, List, [], ◌∷◌, Text, codes, assign}
use cucumber_cpp.Table.{HashRow, Table, done, add_row}

abbrev people : Table
people = record { columns = codes "name" ∷ codes "age" ∷ []; rows = [] }

abbrev ada : List Text
ada = codes "Ada" ∷ codes "36" ∷ []

abbrev ada_row : HashRow
ada_row = (codes "name", codes "Ada") ∷ (codes "age", codes "36") ∷ []

added : add_row ada people ≡ done (record people { rows = ada_row ∷ [] })
unfolding add_row assign
added = refl
