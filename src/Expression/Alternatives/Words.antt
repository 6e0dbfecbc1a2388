-- ===== src/Expression/Alternatives/Words.antt =====
-- Alternatives that are words: what the loops of `collectAlternativesFromHere` and
-- `parseAlternativeText` do on them.
use native.Mathlib.Nat.{zero-add, suc-add, add-suc, add-zero}
use cucumber_cpp.Base.{
  ap, if◌then◌else◌, ℕ, zero, suc, ◌+◌, ◌<◌, ◌≡◌, refl, ◌∙◌, Bool, true, false, ◌||◌, not, [], ◌∷◌,
  ◌++◌, append_assoc, arith, ◌==◌, length, length-append, drop, Text, char_at, All,
}
use cucumber_cpp.Expression.Error.{ok, read_at, read_at_inside, read_at-append}
use cucumber_cpp.Expression.Alternatives.{is_boundary, backtrack}

-- The characters that a word can hold.
abbrev pub is_letter : ℕ → Bool
is_letter c = not (c == b' ' || c == b'{' || c == b'(' || c == b')' || c == b'/' || c == b'\\')

abbrev pub AllLetters : Text → Type 0
AllLetters = All (λ c. is_letter c ≡ true)

-- A word, by its first letter and the others.
pub record Word : Type 0 where
  pub first : ℕ
  pub others : Text

abbrev pub letters : Word → Text
letters w = w.first ∷ w.others

abbrev pub IsWord : Word → Type 0
IsWord w = AllLetters (letters w)

-- What stands behind the words: nothing, or a space.
pub data EndsWords : Text → Type 0 where
  at_end : EndsWords []
  at_space : (s : Text) → EndsWords (b' ' ∷ s)

-- What stands before the words: nothing, or a space.
pub data StartsWords : Text → Type 0 where
  at_start : StartsWords []
  behind_space : (s : Text) → StartsWords (s ++ b' ' ∷ [])

char_at_letter : (u : Text) (k : ℕ) → AllLetters u → k < length u → is_letter (char_at u k) ≡ true
char_at_letter [] k a l = absurd (omega arith)
char_at_letter (c ∷ u) zero a l = a.0
char_at_letter (c ∷ u) (suc k) a l = char_at_letter u k a.1 (omega arith)

char_at-shift : (before s : Text) (k : ℕ) → char_at (before ++ s) (length before + k) ≡ char_at s k
char_at-shift [] s k = rw zero-add refl
char_at-shift (c ∷ before) s k = rw (suc-add (length before) k) (char_at-shift before s k)

char_at-left : (u post : Text) (k : ℕ) → k < length u → char_at (u ++ post) k ≡ char_at u k
char_at-left [] post k l = absurd (omega arith)
char_at-left (c ∷ u) post zero l = refl
char_at-left (c ∷ u) post (suc k) l = char_at-left u post k (omega arith)

char_at-within :
    (before u post : Text) (k : ℕ)
    → k < length u
    → char_at (before ++ (u ++ post)) (length before + k) ≡ char_at u k
char_at-within before u post k l = char_at-shift before (u ++ post) k ∙ char_at-left u post k l

read_at-within :
    (before u post : Text) (k : ℕ)
    → k < length u
    → read_at (before ++ (u ++ post)) (length before + k) ≡ ok (char_at u k)
read_at-within before u post k l =
    read_at_inside (before ++ (u ++ post)) (length before + k)
      (omega (arith, length-append before (u ++ post), length-append u post))
    ∙ ap ok (char_at-within before u post k l)

drop_char : (u : Text) (k : ℕ) → k < length u → char_at u k ∷ drop (suc k) u ≡ drop k u
drop_char [] k l = absurd (omega arith)
drop_char (c ∷ u) zero l = refl
drop_char (c ∷ u) (suc k) l = drop_char u k (omega arith)

pub letter_lem :
    (c : ℕ) → is_letter c ≡ true → ((is_boundary c || c == b'(') ≡ false) × ((c == b')') ≡ false)
unfolding is_boundary
letter_lem c h = (ground (arith, h), ground (arith, h))

-- A round of the outer loop that reads a character.
pub backtrack_outer :
    (e : Text) (i c : ℕ) (current : Text) (stops : Bool)
    → read_at e (suc i) ≡ ok c
    → (is_boundary c || c == b'(') ≡ stops
    → backtrack e (suc i) zero current ≡ (elim stops [
      | true ↦ ok current
      | false ↦ backtrack e i (if c == b')' then 1 else 0) (c ∷ current)
    ])
unfolding backtrack
backtrack_outer e i c current stops here h = rw here (
    ap
      (λ b. elim b [
        | true ↦ ok current
        | false ↦ backtrack e i (if c == b')' then 1 else 0) (c ∷ current)
      ])
      h)

backtrack_space :
    (e : Text) (i : ℕ) (current : Text)
    → read_at e i ≡ ok b' '
    → backtrack e i zero current ≡ ok current
unfolding backtrack is_boundary
backtrack_space e zero current h = rw h refl
backtrack_space e (suc i) current h = backtrack_outer e i b' ' current true h refl

backtrack_first :
    (e : Text) (i c : ℕ) (current : Text)
    → read_at e (suc i) ≡ ok c
    → is_letter c ≡ true
    → read_at e i ≡ ok b' '
    → backtrack e (suc i) zero current ≡ ok (c ∷ current)
backtrack_first e i c current here letter space =
    let (stops, closes) = letter_lem c letter in
    backtrack_outer e i c current false here stops
    ∙ rw closes (backtrack_space e i (c ∷ current) space)

backtrack_start :
    (e : Text) (c : ℕ) (current : Text)
    → read_at e 0 ≡ ok c
    → is_letter c ≡ true
    → backtrack e zero zero current ≡ ok (c ∷ current)
unfolding backtrack
backtrack_start e c current here letter = rw here (rw (letter_lem c letter).0 refl)

-- At the first letter of a word, the loop is at the start or meets the space.
backtrack-first_letter :
    {before : Text}
    → StartsWords before
    → (u post : Text) → AllLetters u
    → 0 < length u
    → backtrack (before ++ (u ++ post)) (length before + 0) zero (drop 1 u) ≡ ok u
backtrack-first_letter start [] post a l = absurd (omega arith)
backtrack-first_letter at_start (c ∷ u) post a l =
    backtrack_start (c ∷ (u ++ post)) c u (read_at-append [] c (u ++ post)) a.0
backtrack-first_letter (behind_space s) (c ∷ u) post a l =
    rw (add-zero, index) (backtrack_first e (length s) c u here a.0 space)
  where
    e : Text
    e = (s ++ b' ' ∷ []) ++ (c ∷ (u ++ post))

    index : length (s ++ b' ' ∷ []) ≡ suc (length s)
    index = length-append s (b' ' ∷ []) ∙ omega arith

    here : read_at e (suc (length s)) ≡ ok c
    here = rw index at (read_at-append (s ++ b' ' ∷ []) c (u ++ post))

    space : read_at e (length s) ≡ ok b' '
    space =
        rw (append_assoc s (b' ' ∷ []) (c ∷ (u ++ post))) (read_at-append s b' ' (c ∷ (u ++ post)))

-- From the last letter of a word, the loop collects the whole word.
pub backtrack-letters :
    (before u post : Text) (k : ℕ)
    → StartsWords before
    → AllLetters u
    → k < length u
    → backtrack (before ++ (u ++ post)) (length before + k) zero (drop (suc k) u) ≡ ok u
backtrack-letters before u post (suc k) start a l =
    let c = char_at u (suc k) in
    let (stops, closes) = letter_lem c (char_at_letter u (suc k) a l) in
    let here : read_at (before ++ (u ++ post)) (suc (length before + k)) ≡ ok c =
      rw (← add-suc) (read_at-within before u post (suc k) l) in
    let e = before ++ (u ++ post) in
    rw add-suc (
      backtrack_outer e (length before + k) c (drop (suc (suc k)) u) false here stops
      ∙ rw (closes, drop_char u (suc k) l)
          (backtrack-letters before u post k start a (omega arith)))
backtrack-letters before u post zero start a l = backtrack-first_letter start u post a l
