-- ===== src/Table.antt =====
-- src/Table.cpp and include/cucumber-cpp/internal/Table.hpp: the data table of a step.
pub mod Laws
mod Tests
use cucumber_cpp.Base.{
  ℕ, Bool, true, false, Option, none, some, List, [], ◌∷◌, ◌++◌, ◌==◌, if◌then◌else◌, length,
  is_empty, Text, assign,
}

abbrev pub HashRow : Type 0
HashRow = List (Text × Text)

pub record Table : Type 0 where
  pub columns : List Text
  pub rows : List HashRow

-- What the two operations throw: `std::runtime_error` twice, and `std::range_error`.
pub data TableError : Type 0 where
  columns_after_rows no_column row_size : TableError

-- `out_of_range`: an index behind the end of the row.
pub data TableResult (A : Type 0) : Type 0 where
  done : A → TableResult A
  fail : TableError → TableResult A
  out_of_range : TableResult A

abbrev pub empty_table : Table
empty_table = record { columns = []; rows = [] }

unfoldable pub add_column : Text → Table → TableResult Table
add_column column t =
    if is_empty t.rows
    then done (record t { columns = t.columns ++ column ∷ [] })
    else fail columns_after_rows

-- The loop of `buildHashRow`, over the columns and the row side by side.
unfoldable pub build_from : List Text → List Text → HashRow → TableResult HashRow
build_from [] row hash_row = done hash_row
build_from (c ∷ columns) [] hash_row = out_of_range
build_from (c ∷ columns) (v ∷ row) hash_row = build_from columns row (assign c v hash_row)

unfoldable pub build_hash_row : Table → List Text → TableResult HashRow
unfolding build_from
build_hash_row t row = build_from t.columns row []

abbrev pub push_row : Table → TableResult HashRow → TableResult Table
push_row t (done hash_row) = done (record t { rows = t.rows ++ hash_row ∷ [] })
push_row t (fail e) = fail e
push_row t out_of_range = out_of_range

unfoldable pub add_row : List Text → Table → TableResult Table
unfolding build_hash_row
add_row row t =
    if length t.columns == 0
    then fail no_column
    else if length t.columns == length row
    then push_row t (build_hash_row t row)
    else fail row_size

abbrev pub hashes : Table → List HashRow
hashes t = t.rows
