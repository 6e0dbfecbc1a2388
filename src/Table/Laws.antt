-- ===== src/Table/Laws.antt =====
-- The rows of a table: each has a value in every column, and it is the value last given.
use cucumber_cpp.Base.{
  ◌≡◌, refl, sym, subst, ◌∙◌, ◌≢◌, inl, inr, Option, none, some, List, [], ◌∷◌, ◌++◌, arith, ◌==◌,
  ==_iff, if◌then◌else◌, Bool-cases, All, length, Text, equal, equal_iff, lookup, assign,
  lookup-assign, or_else, or_else-none_right, IsIn, All-of_IsIn,
}
use cucumber_cpp.Table.{HashRow, Table, done, add_column, build_from, build_hash_row, add_row}

-- The value of the last cell under a column.
abbrev pub cell : Text → List Text → List Text → Option Text
cell k (c ∷ columns) (v ∷ row) = or_else (cell k columns row) (if equal c k then some v else none)
cell k _ _ = none

build_from_cells :
    (columns row : List Text) (h : HashRow)
    → length columns ≡ length row
    → (r : HashRow) × (build_from columns row h ≡ done r)
      × ((k : Text) → lookup k r ≡ or_else (cell k columns row) (lookup k h))
unfolding build_from
build_from_cells [] [] h e = (h, refl, λ k. refl)
build_from_cells [] (v ∷ row) h e = absurd (omega arith)
build_from_cells (c ∷ columns) [] h e = absurd (omega arith)
build_from_cells (c ∷ columns) (v ∷ row) h e =
    let (r, built, cells) = build_from_cells columns row (assign c v h) (omega arith) in
    (r, built, λ k. cells k ∙ ground (arith, lookup-assign k c v h))

-- A row as wide as the table is appended, and reads back cell by cell; where two columns have one
-- name, the later one counts. Rows that are there stay, and so do the columns.
pub add_row_cells :
    (row : List Text) (t : Table)
    → length t.columns ≢ 0
    → length t.columns ≡ length row
    → (r : HashRow) × (add_row row t ≡ done (record t { rows = t.rows ++ r ∷ [] }))
      × ((k : Text) → lookup k r ≡ cell k t.columns row)
unfolding add_row build_hash_row
add_row_cells row t some_column wide =
    let (r, built, cells) = build_from_cells t.columns row [] wide in
    (
      r,
      ground (arith, built),
      λ k. cells k ∙ unfold lookup in or_else-none_right (cell k t.columns row),
    )

done_injective : {A : Type 0} {a b : A} → done a ≡ done b → a ≡ b
done_injective h = cc

-- Every row has a value in every column.
abbrev pub HasCells : List Text → HashRow → Type 0
HasCells columns r = All (λ c. (v : Text) × (lookup c r ≡ some v)) columns

abbrev pub IsFull : Table → Type 0
IsFull t = All (HasCells t.columns) t.rows

All-append :
    (P : HashRow → Type 0) (xs : List HashRow) (x : HashRow) → All P xs → P x → All P (xs ++ x ∷ [])
All-append P [] x h p = (p, tt)
All-append P (y ∷ xs) x (q, h) p = (q, All-append P xs x h p)

cell_among :
    (k : Text) (columns row : List Text)
    → length columns ≡ length row
    → IsIn k columns
    → (v : Text) × (cell k columns row ≡ some v)
cell_among k [] row e i = absurd i
cell_among k (c ∷ columns) [] e i = absurd (omega arith)
cell_among k (c ∷ columns) (v ∷ row) e (inl same) = here (cell k columns row) refl
  where
    here :
        (o : Option Text)
        → cell k columns row ≡ o
        → (w : Text) × (cell k (c ∷ columns) (v ∷ row) ≡ some w)
    here none h = (v, ground (arith, equal_iff c k))
    here (some w) h = (w, ground arith)
cell_among k (c ∷ columns) (v ∷ row) e (inr i) =
    let (w, found) = cell_among k columns row (omega arith) i in (w, rw found)

-- A row that is added has a value in every column.
pub add_row-IsFull :
    (row : List Text) (t : Table) {t' : Table} → IsFull t → add_row row t ≡ done t' → IsFull t'
unfolding add_row
add_row-IsFull row t {t'} full h = elim (Bool-cases (length t.columns == 0)) [
  | inl none_yet ↦ cc (rw (none_yet, add_row) at h)
  | inr some_column ↦ elim (Bool-cases (length t.columns == length row)) [
    | inr narrow ↦ cc (rw (some_column, narrow, add_row) at h)
    | inl wide ↦ added (ground arith) ((==_iff _ _).0 wide)
  ]
]
  where
    added : length t.columns ≢ 0 → length t.columns ≡ length row → IsFull t'
    added some_column wide =
        let (r, same, cells) = add_row_cells row t some_column wide in
        let full' : IsFull (record t { rows = t.rows ++ r ∷ [] }) =
          All-append (HasCells t.columns) t.rows r full (
            All-of_IsIn _ t.columns
              λ c i. let (v, found) = cell_among c t.columns row wide i in (v, cells c ∙ found)) in
        subst IsFull (done_injective (sym same ∙ h)) full'

-- Columns can be added only to a table without rows, so a value is missing in none.
pub add_column-IsFull : (c : Text) (t : Table) {t' : Table} → add_column c t ≡ done t' → IsFull t'
unfolding add_column
add_column-IsFull c t {t'} h = go t.rows refl
  where
    go : (rows : List HashRow) → t.rows ≡ rows → IsFull t'
    go [] e = subst IsFull (done_injective (rw (e, add_column) at h)) tt
    go (r ∷ rows) e = cc (rw (e, add_column) at h)
