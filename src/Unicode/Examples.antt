-- ===== src/Unicode/Examples.antt =====
-- down_string_match.c: an escaped text, and a witness.
use school_project.Common.{ℕ, ◌≡◌, refl, none, some, List, [], ◌∷◌, arith, inl, inr}
use school_project.Unicode.{strtounicode}
use school_project.Unicode.Escapes.{strtounicode-encode, utf8, escape}

-- One letter and U+6559.
abbrev letter_and_ideograph : List ℕ
letter_and_ideograph = 65 ∷ 26009 ∷ []

two_bytes_refused : strtounicode (195 ∷ 169 ∷ []) ≡ none
unfolding strtounicode
two_bytes_refused = refl

strtounicode-encode_example :
    strtounicode (65 ∷ 230 ∷ 150 ∷ 153 ∷ []) ≡ some (65 ∷ 92 ∷ 117 ∷ 54 ∷ 53 ∷ 57 ∷ 57 ∷ [])
unfolding strtounicode utf8 escape
strtounicode-encode_example =
    strtounicode-encode letter_and_ideograph
      (inl (omega arith), (inr (omega arith, omega arith), tt))
