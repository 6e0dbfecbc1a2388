-- ===== src/Base/Decimal.antt =====
-- Decimal digits of a number, as `std::to_string` and `operator<<` write them.
use Prim.Native.Nat.{ℕ, zero, suc, ◌+◌, ◌/◌, ◌%◌}
use mathlib.Core.List.{[], ◌∷◌, ◌++◌}
use cucumber_cpp.Base.Tests.{ltb, if◌then◌else◌}
use cucumber_cpp.Base.Bytes.{Text}

-- With more fuel than the number, the digits are complete.
unfoldable pub to_digits : ℕ → ℕ → Text
to_digits zero n = []
to_digits (suc fuel) n =
    let front = to_digits fuel (n / 10) in
    if ltb n 10 then (b'0' + n) ∷ [] else front ++ (b'0' + n % 10) ∷ []

unfoldable pub to_string : ℕ → Text
unfolding to_digits
to_string n = to_digits (suc n) n
