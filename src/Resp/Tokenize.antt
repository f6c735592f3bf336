-- ===== src/Resp/Tokenize.antt =====
-- src/resp.cpp, `tokenizeCommandLine`: a state per loop, and the text from `position` on.
use flash_kv.Common.{
  ℕ, zero, suc, ◌+◌, ◌-◌, ◌*◌, Bool, true, ◌&&◌, ◌||◌, Option, none, some, List, [], ◌∷◌, ◌++◌,
  Bytes, if◌then◌else◌, leb, ◌==◌, length, is_empty,
}

-- `none` for the -1 of no digit.
unfoldable pub hex_value : ℕ → Option ℕ
hex_value c =
    if leb b'0' c && leb c b'9'
    then some (c - b'0')
    else if leb b'a' c && leb c b'f'
    then some (c - b'a' + 10)
    else if leb b'A' c && leb c b'F'
    then some (c - b'A' + 10)
    else none

unfoldable pub is_space : ℕ → Bool
is_space c = c == b' ' || c == b'\t' || c == b'\r' || c == b'\n'

pub data Quote : Type 0 where
  bare double single : Quote

-- At the loop over spaces, with the arguments so far, or in the loop over one argument.
pub data Scan : Type 0 where
  between : List Bytes → Bytes → Scan
  within : Quote → Bytes → List Bytes → Bytes → Scan

-- The function returns, or goes on.
pub data Next : Type 0 where
  finished : Option (List Bytes) → Next
  go : Scan → Next

-- The `switch` on an escaped character.
unfoldable pub escape : ℕ → ℕ
escape c =
    if c == b'n'
    then 10
    else if c == b'r'
    then 13
    else if c == b't'
    then 9
    else if c == b'b'
    then 8
    else if c == b'a'
    then 7
    else c

abbrev pub hex_pair : ℕ → Option ℕ → Option ℕ → Option ℕ
hex_pair e none b = none
hex_pair e (some a) none = none
hex_pair e (some a) (some b) = if e == b'x' then some (a * 16 + b) else none

-- With the two characters behind `\x` taken if they are digits.
abbrev pub decoded : ℕ → ℕ → ℕ → Bytes → Option ℕ → ℕ × Bytes
decoded e a b s none = (escape e, a ∷ b ∷ s)
decoded e a b s (some byte) = (byte, s)

-- The byte that a backslash and the character `e` stand for, before the text `s`, and what is left.
unfoldable pub unescape : ℕ → Bytes → ℕ × Bytes
unfolding escape hex_value
unescape e [] = (escape e, [])
unescape e (a ∷ []) = (escape e, a ∷ [])
unescape e (a ∷ b ∷ s) = decoded e a b s (hex_pair e (hex_value a) (hex_value b))

-- Whether a closing quote stands before a space or at the end.
abbrev pub ends : Bytes → Bool
ends [] = true
ends (c ∷ s) = is_space c

abbrev pub close : Bytes → List Bytes → Bytes → Next
close current arguments s =
    if ends s then go (between (arguments ++ current ∷ []) s) else finished none

unfoldable pub in_double : Bytes → List Bytes → ℕ → Bytes → Next
unfolding unescape is_space
in_double current arguments c [] =
    if c == b'"'
    then close current arguments []
    else go (within double (current ++ c ∷ []) arguments [])
in_double current arguments c (e ∷ s) =
    let (byte, rest) = unescape e s in
    if c == b'\\'
    then go (within double (current ++ byte ∷ []) arguments rest)
    else if c == b'"'
    then close current arguments (e ∷ s)
    else go (within double (current ++ c ∷ []) arguments (e ∷ s))

unfoldable pub in_single : Bytes → List Bytes → ℕ → Bytes → Next
unfolding is_space
in_single current arguments c [] =
    if c == b'\''
    then close current arguments []
    else go (within single (current ++ c ∷ []) arguments [])
in_single current arguments c (e ∷ s) =
    if c == b'\\' && e == b'\''
    then go (within single (current ++ b'\'' ∷ []) arguments s)
    else if c == b'\''
    then close current arguments (e ∷ s)
    else go (within single (current ++ c ∷ []) arguments (e ∷ s))

unfoldable pub in_bare : Bytes → List Bytes → ℕ → Bytes → Next
unfolding is_space
in_bare current arguments c s =
    if is_space c
    then go (between (arguments ++ current ∷ []) (c ∷ s))
    else if c == b'"' && is_empty current
    then go (within double current arguments s)
    else if c == b'\'' && is_empty current
    then go (within single current arguments s)
    else go (within bare (current ++ c ∷ []) arguments s)

unfoldable pub scan_step : Scan → Next
unfolding in_double in_single in_bare is_space
scan_step (between arguments []) = finished (some arguments)
scan_step (between arguments (c ∷ s)) =
    if is_space c then go (between arguments s) else go (within bare [] arguments (c ∷ s))
scan_step (within bare current arguments []) = go (between (arguments ++ current ∷ []) [])
scan_step (within double current arguments []) = finished none
scan_step (within single current arguments []) = finished none
scan_step (within double current arguments (c ∷ s)) = in_double current arguments c s
scan_step (within single current arguments (c ∷ s)) = in_single current arguments c s
scan_step (within bare current arguments (c ∷ s)) = in_bare current arguments c s

-- The loops. The outer `none` is fuel that ran out.
unfoldable pub scan_loop : ℕ → Next → Option (Option (List Bytes))
unfolding scan_step
scan_loop fuel (finished result) = some result
scan_loop zero (go scan) = none
scan_loop (suc fuel) (go scan) = scan_loop fuel (scan_step scan)

-- Three steps for every character, and three.
abbrev pub scan_fuel : Bytes → ℕ
scan_fuel line = length line * 3 + 3

abbrev pub returned : Option (Option (List Bytes)) → Option (List Bytes)
returned none = none
returned (some result) = result

unfoldable pub tokenize_command_line : Bytes → Option (List Bytes)
unfolding scan_loop
tokenize_command_line line = returned (scan_loop (scan_fuel line) (go (between [] line)))
