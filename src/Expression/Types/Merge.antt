-- ===== src/Expression/Types/Merge.antt =====
-- Which pattern a name has after the merge of built-in and custom types.
use cucumber_cpp.Base.{
  ◌≡◌, refl, ◌∙◌, Option, none, some, List, [], ◌∷◌, arith, if◌then◌else◌, Text, equal, lookup,
  assign, or_else, or_else-none_right, lookup-assign, lookup-insert_range,
}
use cucumber_cpp.Expression.Types.{
  TypeMap, FileItem, entry, skipped, unreadable, TypesFile, array, read_items,
  get_built_in_parameter_types, get_custom_parameter_types, get_parameter_types,
}

-- A built-in type keeps its pattern, whatever the file says; a custom type is found only under a
-- name that is not built in.
pub lookup-get_parameter_types :
    (k : Text) (file : TypesFile)
    → lookup k (get_parameter_types file)
      ≡ or_else (lookup k get_built_in_parameter_types) (lookup k (get_custom_parameter_types file))
unfolding get_parameter_types
lookup-get_parameter_types k file =
    lookup-insert_range k get_built_in_parameter_types (get_custom_parameter_types file)

-- The pattern that the items give a name: that of its last entry before an item that cannot be
-- read.
abbrev pub last_entry : Text → List FileItem → Option Text
last_entry k [] = none
last_entry k (entry name regexp ∷ items) =
    or_else (last_entry k items) (if equal name k then some regexp else none)
last_entry k (skipped ∷ items) = last_entry k items
last_entry k (unreadable ∷ items) = none

lookup-read_items :
    (k : Text) (items : List FileItem) (m : TypeMap)
    → lookup k (read_items items m) ≡ or_else (last_entry k items) (lookup k m)
unfolding read_items
lookup-read_items k [] m = refl
lookup-read_items k (entry name regexp ∷ items) m =
    lookup-read_items k items (assign name regexp m) ∙ ground (arith, lookup-assign k name regexp m)
lookup-read_items k (skipped ∷ items) m = lookup-read_items k items m
lookup-read_items k (unreadable ∷ items) m = refl

-- The custom types of a file with an array are the last entries of each name, up to the first
-- item whose name or pattern is no string.
pub lookup-get_custom_parameter_types :
    (k : Text) (items : List FileItem)
    → lookup k (get_custom_parameter_types (array items)) ≡ last_entry k items
unfolding get_custom_parameter_types
lookup-get_custom_parameter_types k items =
    lookup-read_items k items [] ∙ unfold lookup in or_else-none_right (last_entry k items)
