-- ===== src/Engine/Arguments.antt =====
-- Which tables of a request are taken as the table argument of a step.
use cucumber_cpp.Base.{
  ℕ, suc, ◌+◌, ◌≡◌, ◌≢◌, ◌∙◌, refl, sym, ap, inl, inr, false, some, List, [], ◌∷◌, ◌++◌, ◌>>=◌,
  >>=-eq-some, ◌==◌, ==_iff, arith, Bool-cases, All, length, length-append, append-nil,
  append_assoc, Text,
}
use cucumber_cpp.Table.{HashRow, Table, empty_table, add_column, add_row}
use cucumber_cpp.Table.Laws.{add_row_cells}
use cucumber_cpp.Step.Body.{InvokeArgs, no_args, add_arg}
use cucumber_cpp.Engine.{succeeded, add_args, add_columns, add_rows, fill_table, command_args}

-- A row with a value for each column.
abbrev pub IsWide : Table → List Text → Type 0
IsWide t row = length t.columns ≡ length row

add_args_lem :
    (args : List Text) (a : InvokeArgs) → add_args args a ≡ record a { args = a.args ++ args }
unfolding add_args add_arg
add_args_lem [] a = λ i. record a { args = sym (append-nil a.args) i }
add_args_lem (arg ∷ args) a =
    add_args_lem args (add_arg arg a)
    ∙ (λ i. record a { args = append_assoc a.args (arg ∷ []) args i })

add_columns_lem :
    (columns more : List Text)
    → add_columns more (record { columns = columns; rows = [] })
      ≡ some (record { columns = columns ++ more; rows = [] })
unfolding add_columns add_column
add_columns_lem columns [] = λ i. some (record { columns = sym (append-nil columns) i; rows = [] })
add_columns_lem columns (c ∷ more) =
    add_columns_lem (columns ++ c ∷ []) more
    ∙ (λ i. some (record { columns = append_assoc columns (c ∷ []) more i; rows = [] }))

some_injective : {A : Type 0} {a b : A} → some a ≡ some b → a ≡ b
some_injective h = cc

abbrev columns_of : Table → List Text
columns_of t = t.columns

abbrev rows_of : Table → List HashRow
rows_of t = t.rows

-- A row that is added is as wide as the table, and the columns stay.
add_row_done :
    (row : List Text) (t t' : Table)
    → length t.columns ≢ 0
    → succeeded (add_row row t) ≡ some t'
    → IsWide t row × (t'.columns ≡ t.columns) × (length t'.rows ≡ suc (length t.rows))
unfolding add_row
add_row_done row t t' some_column h = elim (Bool-cases (length t.columns == length row)) [
  | inr narrow ↦
      let counted : (length t.columns == 0) ≡ false = ground (arith, some_column) in
      absurd (cc (rw (counted, narrow, add_row) at h))
  | inl wide ↦
      let e = (==_iff _ _).0 wide in
      let (r, same, cells) = add_row_cells row t some_column e in
      let eq = some_injective (rw same at h) in
      (
        e,
        sym (ap columns_of eq),
        sym (ap (λ u. length (rows_of u)) eq) ∙ (length-append t.rows (r ∷ []) ∙ omega arith),
      )
]

wide_from :
    (columns : List Text) (rows : List (List Text)) (t t' : Table)
    → length t.columns ≢ 0
    → t.columns ≡ columns
    → add_rows rows t ≡ some t'
    → All (λ row. length columns ≡ length row) rows
unfolding add_rows
wide_from columns [] t t' some_column same h = tt
wide_from columns (row ∷ rows) t t' some_column same h =
    let (u, e, rest) = >>=-eq-some (succeeded (add_row row t)) (add_rows rows) h in
    let (wide, kept, grown) = add_row_done row t u some_column e in
    (
      sym (ap length same) ∙ wide,
      wide_from columns rows u t' (λ z. some_column (sym (ap length kept) ∙ z)) (kept ∙ same) rest,
    )

added_from :
    (columns : List Text) (rows : List (List Text)) (t : Table)
    → length t.columns ≢ 0
    → t.columns ≡ columns
    → All (λ row. length columns ≡ length row) rows
    → (t' : Table) × (add_rows rows t ≡ some t')
      × (t'.columns ≡ columns)
      × (length t'.rows ≡ length t.rows + length rows)
unfolding add_rows
added_from columns [] t some_column same a = (t, refl, same, omega arith)
added_from columns (row ∷ rows) t some_column same a =
    let (r, done_row, cells) = add_row_cells row t some_column (ap length same ∙ a.0) in
    let (t', e, kept, n) =
      added_from columns rows (record t { rows = t.rows ++ r ∷ [] }) some_column same a.1 in
    (
      t',
      ap (λ o. succeeded o >>= add_rows rows) done_row ∙ e,
      kept,
      omega (arith, n, length-append t.rows (r ∷ [])),
    )

command_args_lem :
    (args : List Text) (table_arg : List (List Text))
    → command_args args table_arg
      ≡ (fill_table table_arg empty_table >>= λ t. some (record { table_arg = t; args = args }))
unfolding command_args
command_args_lem args table_arg =
    ap (λ a. fill_table table_arg a.table_arg >>= λ t. some (record a { table_arg = t }))
      (add_args_lem args no_args)

fill_table_lem :
    (c : Text) (columns : List Text) (rows : List (List Text))
    → fill_table ((c ∷ columns) ∷ rows) empty_table
      ≡ add_rows rows (record { columns = c ∷ columns; rows = [] })
unfolding fill_table
fill_table_lem c columns rows = ap (◌>>= add_rows rows) (add_columns_lem [] (c ∷ columns))

-- What a step gets of a request: the arguments, and a table with these columns and this number of
-- rows.
pub record IsTaken (args columns : List Text) (rows : ℕ) (a : InvokeArgs) : Type 0 where
  pub same_args : a.args ≡ args
  pub same_columns : a.table_arg.columns ≡ columns
  pub same_rows : length a.table_arg.rows ≡ rows

-- The arguments of a request whose table has a first row of column names are taken, all of them,
-- if each other row has as many cells; and only then.
pub command_args_iff :
    (args : List Text) (column : Text) (columns : List Text) (rows : List (List Text))
    → let wide : Type 0 = All (λ row. length (column ∷ columns) ≡ length row) rows in
      (((a : InvokeArgs) × (command_args args ((column ∷ columns) ∷ rows) ≡ some a)) → wide)
      × (wide
          → (a : InvokeArgs) × (command_args args ((column ∷ columns) ∷ rows) ≡ some a)
            × IsTaken args (column ∷ columns) (length rows) a)
command_args_iff args column columns rows = (taken, given)
  where
    front : List Text
    front = column ∷ columns

    headed : Table
    headed = record { columns = front; rows = [] }

    whole : (t : Table) → InvokeArgs
    whole t = record { table_arg = t; args = args }

    filled : command_args args (front ∷ rows) ≡ (add_rows rows headed >>= λ t. some (whole t))
    filled =
        command_args_lem args (front ∷ rows)
        ∙ ap (◌>>= (λ t. some (whole t))) (fill_table_lem column columns rows)

    taken :
        ((a : InvokeArgs) × (command_args args (front ∷ rows) ≡ some a))
        → All (λ row. length front ≡ length row) rows
    taken (a, h) =
        let (t, added, _) =
          >>=-eq-some (add_rows rows headed) (λ t. some (whole t)) (sym filled ∙ h) in
        wide_from front rows headed t (λ z. omega (arith, z)) refl added

    given :
        All (λ row. length front ≡ length row) rows
        → (a : InvokeArgs) × (command_args args (front ∷ rows) ≡ some a)
          × IsTaken args front (length rows) a
    given wide =
        let (t, added, same, n) = added_from front rows headed (λ z. omega (arith, z)) refl wide in
        (
          whole t,
          filled ∙ ap (◌>>= (λ u. some (whole u))) added,
          record { same_args = refl; same_columns = same; same_rows = omega (arith, n) },
        )
