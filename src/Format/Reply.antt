-- ===== src/Format/Reply.antt =====
-- src/reply_format.cpp, `ReplyReader` and `formatReply`: `position` is the text from it on.
use flash_kv.Common.{
  ℕ, zero, suc, ◌+◌, ◌-◌, ◌^◌, Bool, true, false, ◌&&◌, ◌||◌, Option, none, some, [], ◌∷◌, ◌++◌,
  Bytes, codes, if◌then◌else◌, ltb, leb, ◌==◌, length, take, drop,
}
use flash_kv.Common.Int.{ℤ, pos, negsuc, ◌-ℤ◌}
use flash_kv.Common.Decimal.{is_digit, scan_digits, to_string}
use flash_kv.Resp.Parse.{find_crlf}
use flash_kv.Format.Quote.{quote}

-- std::isspace in the "C" locale.
abbrev is_blank : ℕ → Bool
is_blank c = c == b' ' || leb 9 c && leb c 13

-- std::stoll: blanks, a sign, digits, and anything behind them; `none` is an exception.
unfoldable pub stoll_digits : Bool → Bytes → Option ℤ
unfolding scan_digits
stoll_digits negative [] = none
stoll_digits negative (c ∷ s) =
    let (amount, rest) = scan_digits (c ∷ s) 0 in
    if is_digit c
    then (if negative
        then (if leb amount (2 ^ 63) then some (pos 0 -ℤ pos amount) else none)
        else if ltb amount (2 ^ 63)
        then some (pos amount)
        else none)
    else none

unfoldable pub stoll : Bytes → Option ℤ
unfolding stoll_digits
stoll [] = none
stoll (c ∷ s) =
    let rest = stoll s in
    if is_blank c
    then rest
    else if c == b'-'
    then stoll_digits true s
    else if c == b'+'
    then stoll_digits false s
    else stoll_digits false (c ∷ s)

-- The reader returns true, with the output and the text that is left, or it fails by false or by an
-- exception; or the fuel runs out.
pub data Formatted : Type 0 where
  formatted : Bytes → Bytes → Formatted
  failed exhausted : Formatted

unfoldable pub spaces : ℕ → Bytes
spaces zero = []
spaces (suc n) = b' ' ∷ spaces n

-- A bulk string, behind its length.
unfoldable pub format_bulk : Bool → Bytes → Bytes → Option ℤ → Formatted
unfolding quote
format_bulk raw output text none = failed
format_bulk raw output text (some (negsuc n)) = formatted (output ++ codes "(nil)") text
format_bulk raw output text (some (pos size)) =
    if ltb (length text) (size + 2)
    then failed
    else formatted (output ++ (if raw then take size text else quote (take size text)))
        (drop (size + 2) text)

-- What is written before the element number `i`.
unfoldable pub label : ℕ → ℕ → ℕ → Bytes
unfolding spaces to_string
label indent width i =
    (if ltb 1 i then b'\n' ∷ spaces indent else [])
    ++ spaces (width - length (to_string i))
    ++ to_string i
    ++ codes ") "

-- The loop of an array: the elements left, the number of the next one. `format` is the recursive call,
-- on the output, the indent and the text.
unfoldable pub format_elements :
    (Bytes → ℕ → Bytes → Formatted) → ℕ → ℕ → ℕ → ℕ → Bytes → Bytes → Formatted
unfolding label
format_elements format indent width zero i output text = formatted output text
format_elements format indent width (suc left) i output text =
    elim (format (output ++ label indent width i) (indent + width + 2) text) [
      | formatted output' rest ↦ format_elements format indent width left (i + 1) output' rest
      | failed ↦ failed
      | exhausted ↦ exhausted
    ]

-- An array, behind its count.
unfoldable pub format_array :
    (Bytes → ℕ → Bytes → Formatted) → ℕ → Bytes → Bytes → Option ℤ → Formatted
unfolding format_elements
format_array format indent output text none = failed
format_array format indent output text (some (negsuc n)) = formatted (output ++ codes "(nil)") text
format_array format indent output text (some (pos zero)) =
    formatted (output ++ codes "(empty array)") text
format_array format indent output text (some (pos (suc n))) =
    format_elements format indent (length (to_string (suc n))) (suc n) 1 output text

-- The `switch` on the first byte, behind `readLine`.
unfoldable pub format_line :
    (Bytes → ℕ → Bytes → Formatted) → Bool → ℕ → ℕ → Bytes → Bytes × Bytes → Formatted
unfolding format_bulk format_array stoll
format_line format raw prefix indent output (line, rest) =
    if prefix == b'+'
    then formatted (output ++ line) rest
    else if prefix == b'-'
    then formatted (output ++ codes "(error) " ++ line) rest
    else if prefix == b':'
    then formatted (output ++ codes "(integer) " ++ line) rest
    else if prefix == b'$'
    then format_bulk raw output rest (stoll line)
    else if prefix == b'*'
    then format_array format indent output rest (stoll line)
    else failed

-- `ReplyReader::format`. Every call takes a byte, so that the bytes bound the depth.
unfoldable pub format : ℕ → Bool → Bytes → ℕ → Bytes → Formatted
unfolding format_line find_crlf
format fuel raw output indent [] = failed
format zero raw output indent (prefix ∷ text) = exhausted
format (suc fuel) raw output indent (prefix ∷ text) =
    let inner = format fuel raw in
    elim (find_crlf text) [
      | none ↦ failed
      | some found ↦ format_line inner raw prefix indent output found
    ]

abbrev pub shown : Formatted → Option Bytes
shown (formatted output rest) = some output
shown failed = some (codes "(protocol error)")
shown exhausted = none

-- `none` is the end of the fuel.
unfoldable pub format_reply : Bytes → Bool → Option Bytes
unfolding format
format_reply reply raw = shown (format (length reply) raw [] 0 reply)
