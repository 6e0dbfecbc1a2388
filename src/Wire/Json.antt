-- ===== src/Wire/Json.antt =====
-- The part of nlohmann::json that the wire protocol calls, as an argument of its definitions: a type
-- of values and the operations, where `none` is an exception.
use cucumber_cpp.Base.{ℕ, ℤ, Bool, Option, List, Text}

pub record Json : Type 1 where
  pub Value : Type 0
  pub parse : Text → Option Value
  pub dump : Value → Option Text
  pub null : Value
  pub is_null : Value → Bool
  pub is_string : Value → Bool
  pub is_array : Value → Bool
  -- The number of elements, the elements as iteration meets them, and `at`.
  pub size : Value → ℕ
  pub elements : Value → List Value
  pub at : Value → ℕ → Option Value
  pub at_key : Value → Text → Option Value
  -- `get` at the three types that the decoders ask for.
  pub get_string : Value → Option Text
  pub get_strings : Value → Option (List Text)
  pub get_object : Value → Option (List (Text × Value))
  -- A string, a number, an array of the values pushed back, and an object of the keys assigned.
  pub string : Text → Value
  pub number : ℤ → Value
  pub array : List Value → Value
  pub object : List (Text × Value) → Value
