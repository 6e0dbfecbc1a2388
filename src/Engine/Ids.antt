-- ===== src/Engine/Ids.antt =====
-- Ids that are sent to the client come back as the same number.
use cucumber_cpp.Base.{
  ℕ, zero, suc, ◌+◌, ◌*◌, ◌/◌, ◌%◌, ◌<◌, ◌≤◌, ◌≡◌, ◌∙◌, refl, sym, ap, true, false, [], ◌∷◌, ◌++◌,
  ltb, ◌==◌, arith, if_cases, Text, to_string, to_digits, append_assoc, append-nil,
}
use cucumber_cpp.Tag.{is_space}
use cucumber_cpp.Step.Manager.{id_limit}
use cucumber_cpp.Engine.{
  id_to_string, skip_blank, is_digit, read_digits, saturate, read_signed, convert_id,
}

pub digit_lem : (n : ℕ) → n < 10 → is_digit (b'0' + n) ≡ true
unfolding is_digit
digit_lem n h = ground arith

read_digit :
    (d : ℕ) (s : Text) (n : ℕ)
    → d < 10
    → read_digits ((b'0' + d) ∷ s) n ≡ read_digits s (n * 10 + d)
unfolding read_digits
read_digit d s n h = rw (digit_lem d h) (ap (read_digits s) (omega arith))

pub shorter : (n fuel : ℕ) → ltb n 10 ≡ false → n < suc fuel → n / 10 < fuel
shorter n fuel large h = let l : 10 ≤ n = ground (arith, large) in omega (arith, l, h)

-- Reading goes on behind the digits of a number with that number.
read_digits-to_digits :
    (fuel n : ℕ) (s : Text) → n < fuel → read_digits (to_digits fuel n ++ s) 0 ≡ read_digits s n
unfolding to_digits
read_digits-to_digits zero n s h = absurd (omega arith)
read_digits-to_digits (suc fuel) n s h =
    if_cases (λ x. read_digits (x ++ s) 0 ≡ read_digits s n) (ltb n 10)
      (λ small. read_digit n s 0 (ground (arith, small)) ∙ ap (read_digits s) (omega arith))
      (λ large.
        let tens =
          read_digits-to_digits fuel (n / 10) ((b'0' + n % 10) ∷ s) (shorter n fuel large h) in
        rw (append_assoc (to_digits fuel (n / 10)) ((b'0' + n % 10) ∷ []) s)
          (tens ∙ read_digit (n % 10) s (n / 10) (omega arith) ∙ ap (read_digits s) (omega arith)))

-- A text that starts with a digit.
pub record StartsWithDigit (s : Text) : Type 0 where
  pub first : ℕ
  pub rest : Text
  pub same : s ≡ first ∷ rest
  pub digit : is_digit first ≡ true

pub to_digits-StartsWithDigit : (fuel n : ℕ) → n < fuel → StartsWithDigit (to_digits fuel n)
unfolding to_digits
to_digits-StartsWithDigit zero n h = absurd (omega arith)
to_digits-StartsWithDigit (suc fuel) n h =
    if_cases StartsWithDigit (ltb n 10)
      (λ small. record {
        first = b'0' + n;
        rest = [];
        same = refl;
        digit = digit_lem n (ground (arith, small));
      })
      (λ large.
        let front = to_digits-StartsWithDigit fuel (n / 10) (shorter n fuel large h) in
        record {
          first = front.first;
          rest = front.rest ++ (b'0' + n % 10) ∷ [];
          same = ap (◌++ ((b'0' + n % 10) ∷ [])) front.same;
          digit = front.digit;
        })

digit_first :
    (c : ℕ)
    → is_digit c ≡ true
    → (is_space c ≡ false) × ((c == b'-') ≡ false) × ((c == b'+') ≡ false)
unfolding is_digit is_space
digit_first c h = (ground (arith, h), ground (arith, h), ground (arith, h))

-- Digits are read as they are.
convert_id_digits :
    (u : ℕ) (s : Text) → StartsWithDigit s → convert_id u s ≡ saturate false (read_digits s 0)
unfolding convert_id skip_blank read_signed
convert_id_digits u s d =
    let (blank, minus, plus) = digit_first d.first d.digit in
    rw d.same (rw (blank, minus, plus) refl)

pub read_whole : (fuel n : ℕ) → n < fuel → read_digits (to_digits fuel n) 0 ≡ n
unfolding read_digits
read_whole fuel n h =
    ap (λ x. read_digits x 0) (sym (append-nil (to_digits fuel n)))
    ∙ read_digits-to_digits fuel n [] h

saturate_small : (n : ℕ) → n < id_limit → saturate false n ≡ n
unfolding saturate
saturate_small n h = ground (arith, h)

-- An id below 2 ^ 32 that the engine sends comes back as the same id, whatever the uninitialised
-- variable held.
pub convert_id-id_to_string :
    (uninitialised id : ℕ) → id < id_limit → convert_id uninitialised (id_to_string id) ≡ id
unfolding id_to_string
convert_id-id_to_string uninitialised id h =
    convert_id_digits uninitialised (to_string id)
      (to_digits-StartsWithDigit (suc id) id (omega arith))
    ∙ ap (saturate false) (read_whole (suc id) id (omega arith))
    ∙ saturate_small id h
