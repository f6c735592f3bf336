-- ===== src/Format/Quote.antt =====
-- src/reply_format.cpp, `quote`.
use flash_kv.Common.{
  ℕ, ◌+◌, ◌-◌, ◌/◌, ◌%◌, ◌||◌, [], ◌∷◌, ◌++◌, Bytes, if◌then◌else◌, ltb, leb, ◌==◌,
}

-- A digit of `%x`.
unfoldable pub hex_digit : ℕ → ℕ
hex_digit n = if ltb n 10 then b'0' + n else b'a' + (n - 10)

-- `\x%02x`.
abbrev pub hex_escape : ℕ → Bytes
hex_escape c = b'\\' ∷ b'x' ∷ hex_digit (c / 16) ∷ hex_digit (c % 16) ∷ []

-- The `switch` on a byte.
unfoldable pub quote_byte : ℕ → Bytes
unfolding hex_digit
quote_byte c =
    if c == b'\\'
    then b'\\' ∷ b'\\' ∷ []
    else if c == b'"'
    then b'\\' ∷ b'"' ∷ []
    else if c == 10
    then b'\\' ∷ b'n' ∷ []
    else if c == 13
    then b'\\' ∷ b'r' ∷ []
    else if c == 9
    then b'\\' ∷ b't' ∷ []
    else if ltb c 32 || leb 127 c
    then hex_escape c
    else c ∷ []

-- The loop.
unfoldable pub quote_bytes : Bytes → Bytes
unfolding quote_byte
quote_bytes [] = []
quote_bytes (c ∷ value) = quote_byte c ++ quote_bytes value

unfoldable pub quote : Bytes → Bytes
unfolding quote_bytes
quote value = b'"' ∷ (quote_bytes value ++ b'"' ∷ [])
