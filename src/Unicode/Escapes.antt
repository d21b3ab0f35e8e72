-- ===== src/Unicode/Escapes.antt =====
-- down_string_match.c: the escapes hold the code points of the text.
use school_project.Common.{
  ℕ, ◌+◌, ◌*◌, ◌/◌, ◌%◌, ◌≤◌, ◌<◌, ◌≡◌, refl, true, false, some, List, [], ◌∷◌, ◌++◌, arith, ltb,
  zero, suc, none, codes, get_elem?, ◌⊎◌, if◌then◌else◌, Bytes, inl, inr,
}
use school_project.Unicode.{value_to_hex_ch, escape_bytes, strtounicode, prepend}

-- The UTF-8 bytes of a code point below 2 ^ 16 that takes one byte or three.
unfoldable pub utf8 : ℕ → Bytes
utf8 n =
    if ltb n 128 then n ∷ [] else (224 + n / 4096) ∷ (128 + (n / 64) % 64) ∷ (128 + n % 64) ∷ []

abbrev pub IsShort : ℕ → Type 0
IsShort n = (n < 128) ⊎ ((2048 ≤ n) × (n < 65536))

-- The digits in base 16, in their order.
abbrev pub digits : Bytes
digits = codes "0123456789abcdef"

abbrev pub digit : ℕ → ℕ
digit k = elim (get_elem? digits k) [ none ↦ 0 | some c ↦ c ]

-- A code point as JSON writes it: itself, or four digits in base 16.
unfoldable pub escape : ℕ → Bytes
escape n =
    if ltb n 128
    then n ∷ []
    else codes "\\u"
      ++ (digit (n / 4096) ∷ digit ((n / 256) % 16) ∷ digit ((n / 16) % 16) ∷ digit (n % 16) ∷ [])

value_to_hex_ch-digit : (k : ℕ) → k < 16 → value_to_hex_ch k ≡ digit k
unfolding value_to_hex_ch
value_to_hex_ch-digit zero h = refl
value_to_hex_ch-digit (suc zero) h = refl
value_to_hex_ch-digit (suc (suc zero)) h = refl
value_to_hex_ch-digit (suc (suc (suc zero))) h = refl
value_to_hex_ch-digit (suc (suc (suc (suc zero)))) h = refl
value_to_hex_ch-digit (suc (suc (suc (suc (suc zero))))) h = refl
value_to_hex_ch-digit (suc (suc (suc (suc (suc (suc zero)))))) h = refl
value_to_hex_ch-digit (suc (suc (suc (suc (suc (suc (suc zero))))))) h = refl
value_to_hex_ch-digit (suc (suc (suc (suc (suc (suc (suc (suc zero)))))))) h = refl
value_to_hex_ch-digit (suc (suc (suc (suc (suc (suc (suc (suc (suc zero))))))))) h = refl
value_to_hex_ch-digit (suc (suc (suc (suc (suc (suc (suc (suc (suc (suc zero)))))))))) h = refl
value_to_hex_ch-digit (suc (suc (suc (suc (suc (suc (suc (suc (suc (suc (suc zero))))))))))) h =
    refl
value_to_hex_ch-digit (suc (suc (suc (suc (suc (suc (suc (suc (suc (suc (suc (suc zero))))))))))))
      h =
    refl
value_to_hex_ch-digit
      (suc (suc (suc (suc (suc (suc (suc (suc (suc (suc (suc (suc (suc zero))))))))))))) h =
    refl
value_to_hex_ch-digit
      (suc (suc (suc (suc (suc (suc (suc (suc (suc (suc (suc (suc (suc (suc zero)))))))))))))) h =
    refl
value_to_hex_ch-digit
      (suc (suc (suc (suc (suc (suc (suc (suc (suc (suc (suc (suc (suc (suc (suc zero)))))))))))))))
      h =
    refl
value_to_hex_ch-digit
      (suc
        (suc (suc (suc (suc (suc (suc (suc (suc (suc (suc (suc (suc (suc (suc (suc k))))))))))))))))
      h =
    absurd (omega arith)

abbrev pub encode : List ℕ → Bytes
encode [] = []
encode (n ∷ ns) = utf8 n ++ encode ns

abbrev pub escapes : List ℕ → Bytes
escapes [] = []
escapes (n ∷ ns) = escape n ++ escapes ns

abbrev pub AllShort : List ℕ → Type 0
AllShort [] = Unit
AllShort (n ∷ ns) = IsShort n × AllShort ns

strtounicode-ascii :
    (c : ℕ) (s : Bytes) → c < 128 → strtounicode (c ∷ s) ≡ prepend (c ∷ []) (strtounicode s)
unfolding strtounicode
strtounicode-ascii c [] h = ground arith
strtounicode-ascii c (b ∷ []) h = ground arith
strtounicode-ascii c (b ∷ d ∷ s) h = ground arith

-- The two halves of a code point that three bytes carry, digit by digit.
high_digit :
    (n : ℕ)
    → n < 65536
    → (((224 + n / 4096) * 16 + ((128 + (n / 64) % 64) / 4) % 16) % 256) / 16 ≡ n / 4096
high_digit n k = omega arith

second_digit :
    (n : ℕ)
    → n < 65536
    → (((224 + n / 4096) * 16 + ((128 + (n / 64) % 64) / 4) % 16) % 256) % 16 ≡ (n / 256) % 16
second_digit n k = omega arith

third_digit :
    (n : ℕ) → (((128 + (n / 64) % 64) * 64 + (128 + n % 64) % 64) % 256) / 16 ≡ (n / 16) % 16
third_digit n = omega arith

low_digit : (n : ℕ) → (((128 + (n / 64) % 64) * 64 + (128 + n % 64) % 64) % 256) % 16 ≡ n % 16
low_digit n = omega arith

is_ascii : (n : ℕ) → n < 128 → ltb n 128 ≡ true
is_ascii n h = ground arith

not_ascii : (n : ℕ) → 128 ≤ n → ltb n 128 ≡ false
not_ascii n h = ground arith

escape-three :
    (n : ℕ)
    → 2048 ≤ n
    → n < 65536
    → escape_bytes (224 + n / 4096) (128 + (n / 64) % 64) (128 + n % 64) [] ≡ escape n
unfolding escape_bytes escape
escape-three n h k =
    rw
      (
        not_ascii n (omega arith),
        high_digit n k,
        second_digit n k,
        third_digit n,
        low_digit n,
        value_to_hex_ch-digit (n / 4096) (omega arith),
        value_to_hex_ch-digit ((n / 256) % 16) (omega arith),
        value_to_hex_ch-digit ((n / 16) % 16) (omega arith),
        value_to_hex_ch-digit (n % 16) (omega arith),
      )
      refl

strtounicode-three :
    (b1 b2 b3 : ℕ) (s : Bytes)
    → 128 ≤ b1
    → b2 / 64 ≡ 2
    → b3 / 64 ≡ 2
    → strtounicode (b1 ∷ b2 ∷ b3 ∷ s) ≡ prepend (escape_bytes b1 b2 b3 []) (strtounicode s)
unfolding strtounicode
strtounicode-three b1 b2 b3 s h e f = rw (not_ascii b1 h, e, f) refl

utf8-three :
    (n : ℕ) → 128 ≤ n → utf8 n ≡ (224 + n / 4096) ∷ (128 + (n / 64) % 64) ∷ (128 + n % 64) ∷ []
unfolding utf8
utf8-three n h = rw (not_ascii n h) refl

one_byte : (n : ℕ) → n < 128 → (utf8 n ≡ n ∷ []) × (escape n ≡ n ∷ [])
unfolding utf8 escape
one_byte n h = (rw (is_ascii n h) refl, rw (is_ascii n h) refl)

-- A text of code points that UTF-8 writes in one byte or three is escaped: a code point below 128
-- stays, any other becomes a backslash, a u and its four digits in base 16, in lower case.
pub strtounicode-encode : (ns : List ℕ) → AllShort ns → strtounicode (encode ns) ≡ some (escapes ns)
unfolding strtounicode
strtounicode-encode [] v = refl
strtounicode-encode (n ∷ ns) (inl h, v) =
    rw
      (
        (one_byte n h).0,
        (one_byte n h).1,
        strtounicode-ascii n (encode ns) h,
        strtounicode-encode ns v,
      )
      refl
strtounicode-encode (n ∷ ns) (inr (h, k), v) =
    rw
      (
        utf8-three n (omega arith),
        strtounicode-three (224 + n / 4096) (128 + (n / 64) % 64) (128 + n % 64) (encode ns)
            (omega arith) (omega arith) (omega arith),
        escape-three n h k,
        strtounicode-encode ns v,
      )
      refl
