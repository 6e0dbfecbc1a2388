-- ===== src/Regex/Tests.antt =====
-- Positions behind characters of one to four bytes.
use cucumber_cpp.Base.{ℕ, ◌≡◌, arith, List, [], ◌∷◌, ◌++◌, length, codes}
use cucumber_cpp.Regex.{utf8_codepoint_offset}
use cucumber_cpp.Regex.Offset.{encode_all, utf8_codepoint_offset-encode_all}

-- `a`, `é`, `€` and an emoji.
abbrev characters : List ℕ
characters = 97 ∷ 233 ∷ 8364 ∷ 128512 ∷ []

utf8_codepoint_offset-encode_all_example :
    utf8_codepoint_offset (encode_all characters ++ codes " x") (length (encode_all characters))
    ≡ length characters
utf8_codepoint_offset-encode_all_example =
    utf8_codepoint_offset-encode_all characters (codes " x")
      (omega arith, (omega arith, (omega arith, (omega arith, tt))))
