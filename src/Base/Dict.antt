-- ===== src/Base/Dict.antt =====
-- `std::map` with string keys, as an association list without repeated keys.
use mathlib.Core.Path.{◌≡◌, refl, sym, ◌∙◌}
use mathlib.Core.List.{List, [], ◌∷◌}
use mathlib.Core.Option.{Option, none, some}
use native.Mathlib.Omega.{arith}
use cucumber_cpp.Base.Bytes.{Text, equal, equal_iff}
use cucumber_cpp.Base.Tests.{if◌then◌else◌}

-- The first of two results that there is.
abbrev pub or_else {ℓ} : {V : Type ℓ} → Option V → Option V → Option V
or_else (some v) o = some v
or_else none o = o

pub or_else-none_right {ℓ} : {V : Type ℓ} (o : Option V) → or_else o none ≡ o
or_else-none_right none = refl
or_else-none_right (some v) = refl

module _ {ℓ} {V : Type ℓ} where
  -- `map.find`, with the mapped value.
  unfoldable pub lookup : Text → List (Text × V) → Option V
  lookup k [] = none
  lookup k ((j, v) ∷ m) = if equal j k then some v else lookup k m

  -- `map[k] = v`.
  unfoldable pub assign : Text → V → List (Text × V) → List (Text × V)
  assign k v [] = (k, v) ∷ []
  assign k v ((j, w) ∷ m) = if equal j k then (j, v) ∷ m else (j, w) ∷ assign k v m

  -- `map.insert` of one pair: a key that is present keeps its value.
  unfoldable pub insert_one : Text → V → List (Text × V) → List (Text × V)
  insert_one k v [] = (k, v) ∷ []
  insert_one k v ((j, w) ∷ m) = if equal j k then (j, w) ∷ m else (j, w) ∷ insert_one k v m

  -- `map.insert(first, last)`.
  unfoldable pub insert_range : List (Text × V) → List (Text × V) → List (Text × V)
  unfolding insert_one
  insert_range m [] = m
  insert_range m ((k, v) ∷ more) = insert_range (insert_one k v m) more

  pub lookup-assign :
      (k j : Text) (v : V) (m : List (Text × V))
      → lookup k (assign j v m) ≡ (if equal j k then some v else lookup k m)
  unfolding lookup assign
  lookup-assign k j v [] = refl
  lookup-assign k j v ((i, w) ∷ m) =
      ground (arith, equal_iff i j, equal_iff i k, equal_iff j k, lookup-assign k j v m)

  lookup-insert_one :
      (k j : Text) (v : V) (m : List (Text × V))
      → lookup k (insert_one j v m) ≡ or_else (lookup k m) (if equal j k then some v else none)
  unfolding lookup insert_one
  lookup-insert_one k j v [] = ground arith
  lookup-insert_one k j v ((i, w) ∷ m) =
      ground (arith, equal_iff i j, equal_iff i k, equal_iff j k, lookup-insert_one k j v m)

  -- What is in the map wins over what is inserted.
  pub lookup-insert_range :
      (k : Text) (m more : List (Text × V))
      → lookup k (insert_range m more) ≡ or_else (lookup k m) (lookup k more)
  unfolding insert_range lookup
  lookup-insert_range k m [] = sym (or_else-none_right (lookup k m))
  lookup-insert_range k m ((j, v) ∷ more) =
      lookup-insert_range k (insert_one j v m) more ∙ ground (arith, lookup-insert_one k j v m)
