-- ===== src/Regex/Offset.antt =====
-- The position of a submatch counts characters: bytes are read as UTF-8.
use cucumber_cpp.Base.{
  ℕ, zero, suc, ◌+◌, ◌/◌, ◌%◌, ◌≤◌, ◌<◌, ◌≡◌, refl, ◌∙◌, ap, Bool, true, false, not, ◌&&◌, List, [],
  ◌∷◌, ◌++◌, arith, ltb, leb, if◌then◌else◌, if_cases, ltb→lt, All, length, take-append, Text,
}
use cucumber_cpp.Regex.{is_utf8_code_unit_start_of_codepoint, count_if, utf8_codepoint_offset}

all_below : ℕ → (ℕ → Bool) → Bool
all_below zero pass = true
all_below (suc n) pass = pass n && all_below n pass

all_below_sound :
    (n : ℕ) (pass : ℕ → Bool) (x : ℕ) → all_below n pass ≡ true → x < n → pass x ≡ true
unfolding all_below
all_below_sound zero pass x h lt = absurd (omega arith)
all_below_sound (suc n) pass x h lt = ground (arith, all_below_sound n pass x)

abbrev same : Bool → Bool → Bool
same true b = b
same false b = not b

same_eq : (a b : Bool) → same a b ≡ true → a ≡ b
same_eq a b h = ground arith

abbrev outside : ℕ → Bool
outside c = not (leb 128 c && ltb c 192)

start_table : all_below 256 (λ c. same (is_utf8_code_unit_start_of_codepoint c) (outside c)) ≡ true
unfolding all_below is_utf8_code_unit_start_of_codepoint
start_table = refl

start_outside : (c : ℕ) → c < 256 → is_utf8_code_unit_start_of_codepoint c ≡ outside c
start_outside c h = same_eq _ _ (all_below_sound 256 _ c start_table h)

lead : (c : ℕ) → c < 128 → is_utf8_code_unit_start_of_codepoint c ≡ true
lead c h = start_outside c (omega arith) ∙ ground arith

long_lead : (c : ℕ) → 192 ≤ c → c < 256 → is_utf8_code_unit_start_of_codepoint c ≡ true
long_lead c l h = start_outside c h ∙ ground arith

continuation : (c : ℕ) → 128 ≤ c → c < 192 → is_utf8_code_unit_start_of_codepoint c ≡ false
continuation c l h = start_outside c (omega arith) ∙ ground arith

-- The bytes of a character in UTF-8.
abbrev pub encode : ℕ → Text
encode c =
    if ltb c 0x80
    then c ∷ []
    else if ltb c 0x800
    then (0xc0 + c / 64) ∷ (0x80 + c % 64) ∷ []
    else if ltb c 0x10000
    then (0xe0 + c / 4096) ∷ (0x80 + c / 64 % 64) ∷ (0x80 + c % 64) ∷ []
    else (0xf0 + c / 262144) ∷ (0x80 + c / 4096 % 64) ∷ (0x80 + c / 64 % 64) ∷ (0x80 + c % 64) ∷ []

abbrev pub encode_all : List ℕ → Text
encode_all [] = []
encode_all (c ∷ cs) = encode c ++ encode_all cs

-- A number of the Unicode range.
abbrev pub IsCodePoint : ℕ → Type 0
IsCodePoint c = c < 0x110000

abbrev starts : Text → ℕ
starts = count_if is_utf8_code_unit_start_of_codepoint

starts-continuation : (k : ℕ) (s : Text) → starts ((0x80 + k % 64) ∷ s) ≡ starts s
unfolding count_if
starts-continuation k s = rw (continuation (0x80 + k % 64) (omega arith) (omega arith))

starts_long : (c : ℕ) (s : Text) → 192 ≤ c → c < 256 → starts (c ∷ s) ≡ suc (starts s)
unfolding count_if
starts_long c s l h = rw (long_lead c l h)

starts-encode : (c : ℕ) (s : Text) → IsCodePoint c → starts (encode c ++ s) ≡ suc (starts s)
starts-encode c s h =
    if_cases Counted (ltb c 0x80) (λ a. unfold count_if in rw (lead c (ltb→lt c 0x80 a)))
      λ _.
        if_cases Counted (ltb c 0x800)
          (λ a.
            starts_long _ _ (omega arith) (omega (arith, ltb→lt c 0x800 a))
            ∙ ap suc (starts-continuation c s))
          λ _.
            if_cases Counted (ltb c 0x10000)
              (λ a.
                starts_long _ _ (omega arith) (omega (arith, ltb→lt c 0x10000 a))
                ∙ ap suc (starts-continuation (c / 64) _ ∙ starts-continuation c s))
              λ _.
                starts_long _ _ (omega arith) (omega arith)
                ∙ ap suc (
                    starts-continuation (c / 4096) _
                    ∙ (starts-continuation (c / 64) _ ∙ starts-continuation c s))
  where
    Counted : Text → Type 0
    Counted t = starts (t ++ s) ≡ suc (starts s)

starts-encode_all : (cs : List ℕ) → All IsCodePoint cs → starts (encode_all cs) ≡ length cs
unfolding count_if
starts-encode_all [] h = refl
starts-encode_all (c ∷ cs) (h, hs) =
    starts-encode c (encode_all cs) h ∙ ap suc (starts-encode_all cs hs)

-- Behind the UTF-8 encoding of some characters, the position is their number.
pub utf8_codepoint_offset-encode_all :
    (cs : List ℕ) (rest : Text)
    → All IsCodePoint cs
    → utf8_codepoint_offset (encode_all cs ++ rest) (length (encode_all cs)) ≡ length cs
unfolding utf8_codepoint_offset
utf8_codepoint_offset-encode_all cs rest h =
    rw (take-append (encode_all cs) rest) (starts-encode_all cs h)
