-- ===== src/Common/Decimal.antt =====
-- Decimal text, as the C++ library reads and prints it: `std::from_chars` and `std::to_string`
-- for `long long` and `std::size_t`.
use flash_kv.Common.Tests.{Bytes, ltb, leb, ◌==◌, if◌then◌else◌}
use flash_kv.Common.Int.{ℤ, pos, negsuc, in_range}
use Prim.Native.Nat.{ℕ, zero, suc, ◌+◌, ◌-◌, ◌*◌, ◌/◌, ◌%◌}
use mathlib.Core.Bool.{Bool, true, false, ◌&&◌}
use mathlib.Core.List.{[], ◌∷◌}
use mathlib.Core.Option.{Option, none, some}

abbrev pub is_digit : ℕ → Bool
is_digit c = leb b'0' c && leb c b'9'

-- The longest run of digits behind `n`, and the text after it.
unfoldable pub scan_digits : Bytes → ℕ → ℕ × Bytes
scan_digits [] n = (n, [])
scan_digits (c ∷ s) n =
    let rest = scan_digits s (n * 10 + (c - b'0')) in if is_digit c then rest else (n, c ∷ s)

-- One digit at least.
unfoldable pub scan_magnitude : Bytes → Option (ℕ × Bytes)
scan_magnitude [] = none
scan_magnitude (c ∷ s) = if is_digit c then some (scan_digits (c ∷ s) 0) else none

abbrev negate : ℕ → ℤ
negate zero = pos 0
negate (suc n) = negsuc n

abbrev pub fitting : ℤ → Bytes → Option (ℤ × Bytes)
fitting z rest = if in_range z then some (z, rest) else none

abbrev pub signed : Bool → Option (ℕ × Bytes) → Option (ℤ × Bytes)
signed negative none = none
signed true (some (n, rest)) = fitting (negate n) rest
signed false (some (n, rest)) = fitting (pos n) rest

-- `std::from_chars(begin, end, value)`: the value and what is left, or `none` for an error code.
unfoldable pub from_chars : Bytes → Option (ℤ × Bytes)
unfolding scan_magnitude scan_digits
from_chars [] = none
from_chars (c ∷ s) =
    if c == b'-' then signed true (scan_magnitude s) else signed false (scan_magnitude (c ∷ s))

abbrev pub whole : Option (ℤ × Bytes) → Option ℤ
whole none = none
whole (some (z, [])) = some z
whole (some (z, c ∷ s)) = none

-- `result.ec == std::errc{} && result.ptr == end`.
unfoldable pub parse_all : Bytes → Option ℤ
unfolding from_chars
parse_all text = whole (from_chars text)

unfoldable pub show_from : ℕ → ℕ → Bytes → Bytes
show_from zero n out = out
show_from (suc fuel) n out =
    let more = show_from fuel (n / 10) ((b'0' + n % 10) ∷ out) in
    if ltb n 10 then (b'0' + n) ∷ out else more

-- A number has fewer digits than `n + 1`.
unfoldable pub to_string : ℕ → Bytes
unfolding show_from
to_string n = show_from (suc n) n []

unfoldable pub to_string_ℤ : ℤ → Bytes
unfolding to_string
to_string_ℤ (pos n) = to_string n
to_string_ℤ (negsuc n) = b'-' ∷ to_string (suc n)
