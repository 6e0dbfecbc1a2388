-- ===== src/Expression/Parser/Choices.antt =====
-- The round of `parse` at the slash behind the first word of a choice between words.
use native.Mathlib.Nat.{suc-add}
use cucumber_cpp.Base.{
  ℕ, zero, suc, ◌+◌, ◌≤◌, ◌<◌, ◌≡◌, refl, ap, ◌∙◌, inl, inr, true, false, List, [], ◌∷◌, ◌++◌,
  append-nil, append_assoc, arith, ltb, lt→ltb, le→ltb, ◌==◌, length, length-append, take, Text,
  codes, contains, All, some, none, rfind, Bool-cases, ==_refl,
}
use cucumber_cpp.Expression.Error.{ok, read_at, read_at-append}
use cucumber_cpp.Expression.Types.{TypeMap}
use cucumber_cpp.Expression.Escape.{is_special, escape_char, escape_regex_chars}
use cucumber_cpp.Expression.Alternatives.{
  alternative_round, alternative_read, alternative_from, parse_alternative_text,
}
use cucumber_cpp.Expression.Alternatives.Words.{
  is_letter, AllLetters, Word, letters, IsWord, EndsWords, StartsWords, at_start, behind_space,
}
use cucumber_cpp.Expression.Alternatives.Collect.{collect_alternatives-slashed}
use cucumber_cpp.Expression.Alternatives.Loop.{slashed, all_letters}
use cucumber_cpp.Expression.Parser.Rounds.{find_word_end-total}
use cucumber_cpp.Expression.Parser.{
  join_alternatives, drop_last_word, alternatives_group, collect_before, parse_alternatives,
  parse_round, starts_escape,
}

letter-paren : (c : ℕ) → is_letter c ≡ true → (c == b'(') ≡ false
letter-paren c h = ground (arith, h)

alternative_round-letter :
    (pre post : Text) (c : ℕ)
    → is_letter c ≡ true
    → alternative_round (pre ++ c ∷ post) (length pre) ≡ ok (length pre + 1, escape_char c)
unfolding alternative_round alternative_read
alternative_round-letter pre post c h =
    rw (read_at-append, letter-paren c h, alternative_round) refl

alternative_from-letters :
    (u pre result : Text) (fuel : ℕ)
    → AllLetters u
    → length u ≤ fuel
    → alternative_from fuel (pre ++ u) (length pre) result ≡ ok (result ++ escape_regex_chars u)
unfolding alternative_from escape_regex_chars
alternative_from-letters [] pre result zero a l =
    rw (append-nil pre, append-nil result, le→ltb (length pre) (length pre) (omega arith)) refl
alternative_from-letters [] pre result (suc fuel) a l =
    rw
      (
        append-nil pre,
        append-nil result,
        le→ltb (length pre) (length pre) (omega arith),
        alternative_from,
      )
      refl
alternative_from-letters (c ∷ u) pre result zero a l = absurd (omega arith)
alternative_from-letters (c ∷ u) pre result (suc fuel) a l =
    let ih : alternative_from fuel ((pre ++ c ∷ []) ++ u) (length (pre ++ c ∷ []))
          (result ++ escape_char c)
        ≡ ok ((result ++ escape_char c) ++ escape_regex_chars u) =
      alternative_from-letters u (pre ++ c ∷ []) (result ++ escape_char c) fuel a.1 (omega arith) in
    rw (inside, alternative_round-letter pre u c a.0, alternative_from)
      (rw
        (
          length-append pre (c ∷ []),
          append_assoc pre (c ∷ []) u,
          append_assoc result (escape_char c) (escape_regex_chars u),
        )
        at ih)
  where
    inside : ltb (length pre) (length (pre ++ c ∷ u)) ≡ true
    inside = lt→ltb _ _ (omega (arith, length-append pre (c ∷ u)))

-- A word is only escaped.
parse_alternative_text-letters :
    (u : Text) → AllLetters u → parse_alternative_text u ≡ ok (escape_regex_chars u)
unfolding parse_alternative_text
parse_alternative_text-letters u a = alternative_from-letters u [] [] (length u) a (omega arith)

-- The regex of a choice: the words escaped, with bars between them.
abbrev pub joined : Word → List Word → Text
joined w [] = escape_regex_chars (letters w)
joined w (v ∷ vs) = escape_regex_chars (letters w) ++ b'|' ∷ joined v vs

join_alternatives-letters :
    (w : Word) (ws : List Word)
    → IsWord w
    → All IsWord ws
    → join_alternatives (letters w ∷ all_letters ws) ≡ ok (joined w ws)
unfolding join_alternatives
join_alternatives-letters w [] a b = parse_alternative_text-letters (letters w) a
join_alternatives-letters w (v ∷ vs) a b =
    rw (parse_alternative_text-letters (letters w) a, join_alternatives)
      (rw (join_alternatives-letters v vs b.0 b.1) refl)

escape_char-space :
    (c : ℕ) (t : Text) → is_letter c ≡ true → contains (escape_char c ++ t) b' ' ≡ contains t b' '
unfolding escape_char
escape_char-space c t h = elim (Bool-cases (is_special c)) [
  | inl e ↦ rw (e, escape_char) (rw (other c h) refl)
  | inr e ↦ rw (e, escape_char) (rw (other c h) refl)
]
  where
    other : (c : ℕ) → is_letter c ≡ true → (c == b' ') ≡ false
    other c h = ground (arith, h)

escape_regex_chars-space : (u : Text) → AllLetters u → contains (escape_regex_chars u) b' ' ≡ false
unfolding escape_regex_chars
escape_regex_chars-space [] a = refl
escape_regex_chars-space (c ∷ u) a =
    escape_char-space c (escape_regex_chars u) a.0 ∙ escape_regex_chars-space u a.1

rfind-absent : (c : ℕ) (t : Text) → contains t c ≡ false → rfind c t ≡ none
rfind-absent c [] h = refl
rfind-absent c (x ∷ t) h = elim (Bool-cases (x == c)) [
  | inl e ↦ cc (rw e at h)
  | inr e ↦ rw (rfind-absent c t (rw e at h), e) refl
]

rfind-append : (c : ℕ) (s t : Text) → contains t c ≡ false → rfind c (s ++ c ∷ t) ≡ some (length s)
rfind-append c [] t h = rw (rfind-absent c t h, ==_refl c) refl
rfind-append c (x ∷ s) t h = rw (rfind-append c s t h) refl

-- The regex before the words loses nothing but the first word.
drop_last_word-words :
    {r : Text} → StartsWords r → (t : Text) → contains t b' ' ≡ false → drop_last_word (r ++ t) ≡ r
unfolding drop_last_word
drop_last_word-words at_start t h = rw (rfind-absent b' ' t h, drop_last_word) refl
drop_last_word-words (behind_space s) t h =
    ap drop_last_word (append_assoc s (b' ' ∷ []) t)
    ∙ rw (rfind-append b' ' s t h, drop_last_word) (taken s)
  where
    taken : (s : Text) → take (length s + 1) (s ++ b' ' ∷ t) ≡ s ++ b' ' ∷ []
    taken [] = refl
    taken (c ∷ s) = rw (suc-add (length s) 1) (ap (◌∷◌ c) (taken s))

-- The words of a choice and what stands around them.
abbrev pub chosen_text : Text → Word → List Word → Text → Text
chosen_text before w ws post = before ++ (letters w ++ (slashed ws ++ post))

abbrev pub first_word_end : Text → Word → ℕ
first_word_end before w = length before + length (letters w)

chosen_text-slash :
    (before post : Text) (w v : Word) (vs : List Word)
    → read_at (chosen_text before w (v ∷ vs) post) (first_word_end before w) ≡ ok b'/'
chosen_text-slash before post w v vs =
    rw
      (append_assoc before (letters w) (slashed (v ∷ vs) ++ post), length-append before (letters w))
      at (read_at-append (before ++ letters w) b'/' ((letters v ++ slashed vs) ++ post))

-- The regex before a choice ends where a word starts.
abbrev pub choice_regex : Word → List Word → Text
choice_regex w ws = codes "(?:" ++ (joined w ws ++ codes ")")

escape_regex_chars_pos : (w : Word) (r : Text) → 0 < length (r ++ escape_regex_chars (letters w))
unfolding escape_regex_chars escape_char
escape_regex_chars_pos w r = elim (Bool-cases (is_special w.first)) [
  | inl e ↦
      rw (e, escape_char)
        (omega (arith, length-append r (b'\\' ∷ w.first ∷ escape_regex_chars w.others)))
  | inr e ↦
      rw (e, escape_char) (omega (arith, length-append r (w.first ∷ escape_regex_chars w.others)))
]

parse_alternatives-words :
    {before post r : Text}
    → StartsWords before
    → StartsWords r
    → EndsWords post
    → (w v : Word) (vs : List Word) → IsWord w
    → All IsWord (v ∷ vs)
    → parse_alternatives
        (chosen_text before w (v ∷ vs) post)
        (record { pos = first_word_end before w; result = r ++ escape_regex_chars (letters w) })
      ≡ ok (record {
        pos = first_word_end before w + length (slashed (v ∷ vs));
        result = r ++ choice_regex w (v ∷ vs);
      })
unfolding parse_alternatives collect_before alternatives_group
parse_alternatives-words {before} {post} {r} start built stop w v vs a b =
    let (n, found) =
      find_word_end-total (first_word_end before w) (r ++ escape_regex_chars (letters w))
        (escape_regex_chars_pos w r) in
    let collected = collect_alternatives-slashed start stop w (v ∷ vs) a b in
    let body = join_alternatives-letters w (v ∷ vs) a b in
    let dropped =
      drop_last_word-words built (escape_regex_chars (letters w))
        (escape_regex_chars-space (letters w) a) in
    rw (found, parse_alternatives)
      (rw (at_pos, collect_before)
        (rw (collected, alternatives_group) (rw (several, body) (rw (dropped, ← at_pos) refl))))
  where
    at_pos : first_word_end before w ≡ suc (length before + length w.others)
    at_pos = omega arith

    several : ltb 1 (length (letters w ∷ all_letters (v ∷ vs))) ≡ true
    several = lt→ltb _ _ (omega arith)

-- At the slash, the word before it is taken out of the regex, and the choice is put there.
pub parse_round-words :
    (types : TypeMap) {before post r : Text}
    → StartsWords before
    → StartsWords r
    → EndsWords post
    → (w v : Word) (vs : List Word) → IsWord w
    → All IsWord (v ∷ vs)
    → parse_round types
        (chosen_text before w (v ∷ vs) post)
        (record { pos = first_word_end before w; result = r ++ escape_regex_chars (letters w) })
      ≡ ok (record {
        pos = first_word_end before w + length (slashed (v ∷ vs));
        result = r ++ choice_regex w (v ∷ vs);
      })
unfolding parse_round starts_escape
parse_round-words types {before} {post} start built stop w v vs a b =
    rw (chosen_text-slash before post w v vs, parse_round)
      (parse_alternatives-words start built stop w v vs a b)
