-- ===== src/HttpParse/Decode.antt =====
-- http_parse.c, `urldecode_my`: it undoes the encoding of a URL.
use school_project.Common.{
  ℕ, ◌+◌, ◌-◌, ◌*◌, ◌/◌, ◌%◌, ◌<◌, ◌≡◌, refl, ap, Bool, true, false, ◌&&◌, ◌||◌, some, [], ◌∷◌, ltb,
  leb, ◌==◌, if◌then◌else◌, Bytes, arith, Bool-cases, inl, inr,
}
use school_project.HttpParse.{digit_value, before, urldecode_my}

-- A digit in base 16.
unfoldable pub hex_digit : ℕ → ℕ
hex_digit v = if ltb v 10 then v + b'0' else v - 10 + b'A'

-- Letters and digits stand for themselves, a blank is a plus, and every other byte is written in
-- base 16.
unfoldable pub is_plain : ℕ → Bool
is_plain c = (leb b'0' c && leb c b'9') || (leb b'A' c && leb c b'Z') || (leb b'a' c && leb c b'z')

unfoldable pub urlencode : Bytes → Bytes
unfolding hex_digit is_plain
urlencode [] = []
urlencode (c ∷ s) =
    if is_plain c
    then c ∷ urlencode s
    else if c == b' '
    then b'+' ∷ urlencode s
    else b'%' ∷ hex_digit (c / 16) ∷ hex_digit (c % 16) ∷ urlencode s

abbrev pub AllBytes : Bytes → Type 0
AllBytes [] = Unit
AllBytes (c ∷ s) = (c < 256) × AllBytes s

digit_value-hex_digit : (v : ℕ) → v < 16 → digit_value (hex_digit v) ≡ v
unfolding digit_value hex_digit
digit_value-hex_digit v h = elim (Bool-cases (ltb v 10)) [
  | inl e ↦ ground arith
  | inr e ↦ ground arith
]

urldecode_my-other :
    (c : ℕ) (s : Bytes)
    → (c == b'%') ≡ false
    → urldecode_my (c ∷ s) ≡ before (if c == b'+' then b' ' else c) (urldecode_my s)
unfolding urldecode_my
urldecode_my-other c [] h = rw h refl
urldecode_my-other c (d ∷ []) h = rw h refl
urldecode_my-other c (d ∷ e ∷ s) h = rw h refl

urldecode_my-percent :
    (d e : ℕ) (s : Bytes)
    → urldecode_my (b'%' ∷ d ∷ e ∷ s)
      ≡ before ((digit_value d * 16 + digit_value e) % 256) (urldecode_my s)
unfolding urldecode_my
urldecode_my-percent d e s = refl

is_blank : (c : ℕ) → (c == b' ') ≡ true → b' ' ≡ c
is_blank c f = ground arith

plain-other : (c : ℕ) → is_plain c ≡ true → ((c == b'%') ≡ false) × ((c == b'+') ≡ false)
unfolding is_plain
plain-other c h = ground arith

-- Decoding gives back every text of bytes that is written as a URL, with letters and digits as they
-- are, a plus for a blank and %XX for every other byte.
pub urldecode_my-urlencode : (s : Bytes) → AllBytes s → urldecode_my (urlencode s) ≡ some s
unfolding urlencode urldecode_my
urldecode_my-urlencode [] h = refl
urldecode_my-urlencode (c ∷ s) (h, k) = elim (Bool-cases (is_plain c)) [
  | inl e ↦ rw e (
      rw
        (
          urldecode_my-other c (urlencode s) (plain-other c e).0,
          (plain-other c e).1,
          urldecode_my-urlencode s k,
        )
        refl)
  | inr e ↦ elim (Bool-cases (c == b' ')) [
    | inl f ↦
        rw (e, f)
          (rw (urldecode_my-other b'+' (urlencode s) refl, urldecode_my-urlencode s k)
            (ap (λ x. some (x ∷ s)) (is_blank c f)))
    | inr f ↦
        rw (e, f)
          (rw
            (
              urldecode_my-percent (hex_digit (c / 16)) (hex_digit (c % 16)) (urlencode s),
              digit_value-hex_digit (c / 16) (omega arith),
              digit_value-hex_digit (c % 16) (omega arith),
              urldecode_my-urlencode s k,
            )
            (ap (λ x. some (x ∷ s)) (omega arith)))
  ]
]
