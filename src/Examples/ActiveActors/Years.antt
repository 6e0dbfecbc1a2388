-- ===== src/Examples/ActiveActors/Years.antt =====
-- The years of the actors behind the step with the table.
use cucumber_cpp.Base.{
  ℕ, ◌≡◌, ◌∙◌, refl, ap, Bool, true, false, Option, none, some, List, [], ◌∷◌, Text, codes, lookup,
  map, equal, equal_iff, or_else, if◌then◌else◌, arith, All,
}
use cucumber_cpp.Examples.ActiveActors.{Actors, same, add_actor}
use cucumber_cpp.Examples.ActiveActors.Steps.{Platform, add_actors}
use cucumber_cpp.Table.{HashRow}

-- `find`, with the year.
abbrev pub year_of : Text → Actors → Option ℕ
year_of name [] = none
year_of name ((n, y) ∷ actors) = if equal name n then some y else year_of name actors

same_equal : (s t : Text) → same s t ≡ equal s t
unfolding same
same_equal [] [] = refl
same_equal [] (d ∷ t) = refl
same_equal (c ∷ s) [] = refl
same_equal (c ∷ s) (d ∷ t) = ground (arith, same_equal s t)

year_of-add_actor :
    (name other : Text) (year : ℕ) (actors : Actors)
    → year_of name (add_actor other year actors)
      ≡ (if equal name other then some year else year_of name actors)
unfolding add_actor
year_of-add_actor name other year [] = refl
year_of-add_actor name other year ((n, y) ∷ actors) = ground (
  arith,
  same_equal other n,
  equal_iff other n,
  equal_iff name other,
  equal_iff name n,
  year_of-add_actor name other year actors,
)

module _ (platform : Platform) where
  -- A row of the table, with what is read from it.
  pub record Entry : Type 0 where
    pub row : HashRow
    pub name : Text
    pub year_text : Text
    pub year : ℕ

  pub record IsEntry (e : Entry) : Type 0 where
    pub named : lookup (codes "name") e.row ≡ some e.name
    pub born : lookup (codes "born") e.row ≡ some e.year_text
    pub read : platform.to_year e.year_text ≡ some e.year

  -- The year in the last of the rows with a name.
  abbrev pub last_year : Text → List Entry → Option ℕ
  last_year name [] = none
  last_year name (e ∷ entries) =
      or_else (last_year name entries) (if equal name e.name then some e.year else none)

  abbrev pub rows_of : List Entry → List HashRow
  rows_of entries = map (λ e. e.row) entries

  or_else_assoc : (o p q : Option ℕ) → or_else o (or_else p q) ≡ or_else (or_else o p) q
  or_else_assoc none p q = refl
  or_else_assoc (some y) p q = refl

  or_else_if :
      (b : Bool) (year : ℕ) (o : Option ℕ)
      → (if b then some year else o) ≡ or_else (if b then some year else none) o
  or_else_if true year o = refl
  or_else_if false year o = refl

  -- All rows are added, and each name has the year of its last row, or the one it had.
  pub add_actors-year_of :
      (entries : List Entry) (actors : Actors)
      → All IsEntry entries
      → (actors' : Actors) × (add_actors platform (rows_of entries) actors ≡ (actors', none))
        × ((name : Text)
            → year_of name actors' ≡ or_else (last_year name entries) (year_of name actors))
  unfolding add_actors
  add_actors-year_of [] actors h = (actors, refl, λ name. refl)
  add_actors-year_of (e ∷ entries) actors (h, hs) =
      let (actors', added, years) =
        add_actors-year_of entries (add_actor e.name e.year actors) hs in
      (
        actors',
        rw (h.named, h.born, h.read) added,
        λ name.
            years name
            ∙ ap (or_else (last_year name entries)) (
                year_of-add_actor name e.name e.year actors
                ∙ or_else_if (equal name e.name) e.year (year_of name actors))
            ∙ or_else_assoc (last_year name entries) _ _,
      )
