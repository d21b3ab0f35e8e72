-- ===== src/Unicode.antt =====
-- down_string_match.c, `strtounicode`: a text in UTF-8 as JSON escapes.
pub mod Escapes
mod Examples
use school_project.Common.{
  ℕ, zero, suc, ◌+◌, ◌-◌, ◌*◌, ◌/◌, ◌%◌, Bool, true, false, Option, none, some, [], ◌∷◌, ltb, leb,
  ◌==◌, ◌&&◌, if◌then◌else◌, ◌++◌, Bytes,
}

-- `valueToHexCh`, on the values from 0 to 15 that it is called with.
unfoldable pub value_to_hex_ch : ℕ → ℕ
value_to_hex_ch value = if leb 0 value && leb value 9 then value + 48 else value - 10 + 97

-- What one multi-byte character writes: the two bytes `unicode` by their halves, where
-- `(b1 << 4) + ((b2 >> 2) & 0x0F)` and `(b2 << 6) + (b3 & 0x3F)` are cut to a `char`.
unfoldable pub escape_bytes : ℕ → ℕ → ℕ → Bytes → Bytes
unfolding value_to_hex_ch
escape_bytes b1 b2 b3 rest =
    let high = (b1 * 16 + (b2 / 4) % 16) % 256 in
    let low = (b2 * 64 + b3 % 64) % 256 in
    92
    ∷ b'u'
    ∷ value_to_hex_ch (high / 16)
    ∷ value_to_hex_ch (high % 16)
    ∷ value_to_hex_ch (low / 16)
    ∷ value_to_hex_ch (low % 16)
    ∷ rest

abbrev pub prepend : Bytes → Option Bytes → Option Bytes
prepend p none = none
prepend p (some s) = some (p ++ s)

-- The loop of `strtounicode`; `none` is its `return 1`. A text that ends inside a character shows
-- its NUL as `b2` or `b3`, which is no continuation byte.
unfoldable pub strtounicode : Bytes → Option Bytes
unfolding escape_bytes
strtounicode [] = some []
strtounicode (b1 ∷ b2 ∷ b3 ∷ s) =
    if ltb b1 128
    then prepend (b1 ∷ []) (strtounicode (b2 ∷ b3 ∷ s))
    else if b2 / 64 == 2 && b3 / 64 == 2
    then prepend (escape_bytes b1 b2 b3 []) (strtounicode s)
    else none
strtounicode (b1 ∷ b2 ∷ []) =
    if ltb b1 128 then prepend (b1 ∷ []) (strtounicode (b2 ∷ [])) else none
strtounicode (b1 ∷ []) = if ltb b1 128 then some (b1 ∷ []) else none
