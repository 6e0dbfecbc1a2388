-- ===== src/Base/Bytes.antt =====
-- `std::string` as its bytes, with the operations that the source calls.
use Prim.Native.Char.{code}
use Prim.Native.Nat.{ℕ, zero, suc, ◌+◌, ◌<◌, ◌≤◌}
use Prim.Native.String.{String}
use mathlib.Core.Path.{◌≡◌, refl, ap, ◌∙◌}
use mathlib.Core.Logic.{◌↔◌, ◌⊎◌, inl, inr}
use mathlib.Core.Bool.{Bool, true, false, ◌&&◌}
use mathlib.Core.List.{List, [], ◌∷◌, ◌++◌}
use mathlib.Core.Option
use mathlib.Core.Option.{Option, none, some}
use native.Mathlib.Nat.{suc-add}
use native.Mathlib.Omega.{arith}
use cucumber_cpp.Base.Lists.{length, take, drop, All}
use cucumber_cpp.Base.Tests.{◌==◌, ==_refl, if◌then◌else◌, Bool-cases}

abbrev pub Text : Type 0
Text = List ℕ

-- The bytes of an ASCII literal.
abbrev pub codes : String → Text
codes String.[] = []
codes (String.◌∷◌ c s) = code c ∷ codes s

-- `operator==`.
abbrev pub equal : Text → Text → Bool
equal [] [] = true
equal (x ∷ xs) (y ∷ ys) = x == y && equal xs ys
equal _ _ = false

pub equal_iff : (a b : Text) → (equal a b ≡ true) ↔ (a ≡ b)
equal_iff (x ∷ a) (y ∷ b) = ground (arith, equal_iff a b)
equal_iff _ _ = ground arith

pub equal_refl : (a : Text) → equal a a ≡ true
equal_refl a = (equal_iff a a).1 refl

-- `operator[]`; at the end of a string it reads the terminator.
abbrev pub char_at : Text → ℕ → ℕ
char_at [] i = 0
char_at (c ∷ s) zero = c
char_at (c ∷ s) (suc i) = char_at s i

-- Whether a byte occurs.
abbrev pub contains : Text → ℕ → Bool
contains [] c = false
contains (x ∷ s) c = if x == c then true else contains s c

-- `find(c, pos)`; `none` is `npos`.
abbrev pub find : ℕ → Text → Option ℕ
find c [] = none
find c (x ∷ s) = if x == c then some 0 else Option.map suc (find c s)

abbrev pub find_from : ℕ → Text → ℕ → Option ℕ
find_from c s zero = find c s
find_from c [] (suc i) = none
find_from c (x ∷ s) (suc i) = Option.map suc (find_from c s i)

-- `rfind(c)`.
abbrev pub rfind : ℕ → Text → Option ℕ
rfind c [] = none
rfind c (x ∷ s) = elim (rfind c s) [
  | some i ↦ some (suc i)
  | none ↦ if x == c then some 0 else none
]

-- `substr(pos, count)`, for `pos` within the string.
abbrev pub substr : Text → ℕ → ℕ → Text
substr s pos count = take count (drop pos s)

-- `c_str()` read as a string again: it ends at the first NUL byte.
abbrev pub c_str : Text → Text
c_str [] = []
c_str (c ∷ s) = let rest = c_str s in if c == 0 then [] else c ∷ rest

pub char_at-append : (s : Text) (c : ℕ) (t : Text) → char_at (s ++ c ∷ t) (length s) ≡ c
char_at-append [] c t = refl
char_at-append (x ∷ s) c t = char_at-append s c t

-- Inversion of a shifted search.
pub map-eq-some :
    (o : Option ℕ) {q : ℕ} → Option.map suc o ≡ some q → (r : ℕ) × (o ≡ some r) × (suc r ≡ q)
map-eq-some none h = cc
map-eq-some (some r) h = (r, refl, cc)

-- A hit lies within the string, and holds the byte.
pub find_bound : (c : ℕ) (s : Text) {q : ℕ} → find c s ≡ some q → q < length s
find_bound c [] h = cc
find_bound c (x ∷ s) h = elim (Bool-cases (x == c)) [
  | inl e ↦ ground arith
  | inr e ↦
      let (r, found, shifted) = map-eq-some (find c s) (rw e at h) in
      let below = find_bound c s found in omega arith
]

pub find_from_bound :
    (c : ℕ) (s : Text) (p : ℕ) {q : ℕ} → find_from c s p ≡ some q → (p ≤ q) × (q < length s)
find_from_bound c s zero h = (omega arith, find_bound c s h)
find_from_bound c [] (suc p) h = cc
find_from_bound c (x ∷ s) (suc p) h =
    let (r, found, shifted) = map-eq-some (find_from c s p) h in
    let below = find_from_bound c s p found in omega arith

-- Searches, copies and reads in a text that is split around a place.
pub find-append :
    (c : ℕ) (s t : Text) → contains s c ≡ false → find c (s ++ c ∷ t) ≡ some (length s)
find-append c [] t h = rw (==_refl c)
find-append c (x ∷ s) t h = elim (Bool-cases (x == c)) [
  | inl e ↦ cc (rw e at h)
  | inr e ↦ rw e (ap (Option.map suc) (find-append c s t (rw e at h)))
]

pub find_from-append :
    (c : ℕ) (before s : Text) {q : ℕ}
    → find c s ≡ some q
    → find_from c (before ++ s) (length before) ≡ some (length before + q)
find_from-append c [] s h = h ∙ ap some (omega arith)
find_from-append c (x ∷ before) s {q} h =
    ap (Option.map suc) (find_from-append c before s h) ∙ ap some (omega arith)

pub drop_one-append :
    (before : Text) (c : ℕ) (s : Text) → drop (length before + 1) (before ++ c ∷ s) ≡ s
drop_one-append [] c s = refl
drop_one-append (x ∷ before) c s = rw (suc-add (length before) 1) (drop_one-append before c s)

pub char_at_one-append :
    (before : Text) (c d : ℕ) (s : Text) → char_at (before ++ c ∷ d ∷ s) (length before + 1) ≡ d
char_at_one-append [] c d s = refl
char_at_one-append (x ∷ before) c d s =
    rw (suc-add (length before) 1) (char_at_one-append before c d s)

-- A text is on a list.
abbrev pub IsIn : Text → List Text → Type 0
IsIn a [] = ⊥
IsIn a (x ∷ xs) = (x ≡ a) ⊎ IsIn a xs

pub All-of_IsIn {ℓ} :
    (P : Text → Type ℓ) (xs : List Text) → ((a : Text) → IsIn a xs → P a) → All P xs
All-of_IsIn P [] h = tt
All-of_IsIn P (x ∷ xs) h = (h x (inl refl), All-of_IsIn P xs (λ a i. h a (inr i)))
