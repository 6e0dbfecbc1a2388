-- ===== src/Expression/Transform/Spaced.antt =====
-- What `cukex::transform` makes of a whole expression: the parsed regex between anchors, if it
-- compiles.
use cucumber_cpp.Base.{Option, none, some, ◌++◌, Text, c_str, codes}
use cucumber_cpp.Expression.Error.{Result, ok, throw, base_exception}

-- A regex that compiles is returned. One that does not is told in an exception of the base class,
-- with the text that `std::regex` threw up to its first NUL.
abbrev pub compiled : Option Text → Text → Result Text
compiled none regex = ok regex
compiled (some what) regex = throw (record {
  kind = base_exception;
  what = codes "Invalid Cucumber expression: Failed to create valid regex: " ++ c_str what;
})
