-- ===== src/Commands/Text.antt =====
-- src/commands.cpp: letters, numbers and sizes in the arguments of commands.
use flash_kv.Common.{
  ℕ, zero, suc, ◌+◌, ◌-◌, ◌*◌, ◌/◌, ◌%◌, ◌^◌, ◌&&◌, ◌||◌, Option, none, some, [], ◌∷◌, ◌++◌, map,
  Bytes, codes, if◌then◌else◌, ltb, leb, ◌==◌, ◌===◌, word,
}
use flash_kv.Common.Int.{ℤ}
use flash_kv.Common.Decimal.{is_digit, scan_digits, parse_all, to_string}

-- std::toupper and std::tolower in the "C" locale, which the programs never leave.
unfoldable pub to_upper : ℕ → ℕ
to_upper c = if leb b'a' c && leb c b'z' then c - 32 else c

unfoldable pub to_lower : ℕ → ℕ
to_lower c = if leb b'A' c && leb c b'Z' then c + 32 else c

unfoldable pub uppercase : Bytes → Bytes
unfolding to_upper
uppercase = map to_upper

unfoldable pub lowercase : Bytes → Bytes
unfolding to_lower
lowercase = map to_lower

-- A long long of the whole text.
unfoldable pub parse_integer : Bytes → Option ℤ
unfolding parse_all
parse_integer [] = none
parse_integer (c ∷ s) = parse_all (c ∷ s)

-- The number of a run of digits, if there is one and it fits, and the text behind it.
unfoldable pub leading_number : Bytes → Option (ℕ × Bytes)
unfolding scan_digits
leading_number [] = none
leading_number (c ∷ s) =
    let (amount, unit) = scan_digits (c ∷ s) 0 in
    if is_digit c && ltb amount word then some (amount, unit) else none

-- What a unit in small letters multiplies by.
unfoldable pub multiplier : Bytes → Option ℕ
unfolding ◌===◌
multiplier unit =
    if unit === [] || unit === codes "b"
    then some 1
    else if unit === codes "k"
    then some 1000
    else if unit === codes "kb"
    then some 1024
    else if unit === codes "m"
    then some (1000 * 1000)
    else if unit === codes "mb"
    then some (1024 * 1024)
    else if unit === codes "g"
    then some (1000 * 1000 * 1000)
    else if unit === codes "gb"
    then some (1024 * 1024 * 1024)
    else none

-- __builtin_mul_overflow on unsigned long long, which std::size_t is as wide as.
unfoldable pub scaled : ℕ → Option ℕ → Option ℕ
scaled amount none = none
scaled amount (some factor) = if ltb (amount * factor) word then some (amount * factor) else none

unfoldable pub parse_memory_size : Bytes → Option ℕ
unfolding leading_number multiplier lowercase scaled
parse_memory_size text = elim (leading_number text) [
  | none ↦ none
  | some (amount, unit) ↦ scaled amount (multiplier (lowercase unit))
]

-- The number of bits of `n`, on fuel; `n` has no more bits than `n + 1`.
unfoldable pub bits : ℕ → ℕ → ℕ
bits zero n = 0
bits (suc fuel) n = let rest = bits fuel (n / 2) in if n == 0 then 0 else rest + 1

-- n / d to the nearest whole number, a tie to the even one.
unfoldable pub round_quotient : ℕ → ℕ → ℕ
round_quotient n d =
    let q = n / d in
    let r = n % d in
    if ltb (r * 2) d then q else if ltb d (r * 2) then q + 1 else if q % 2 == 0 then q else q + 1

-- static_cast<double>: 53 bits are kept.
unfoldable pub to_double : ℕ → ℕ
unfolding bits round_quotient
to_double n = let dropped = 2 ^ (bits 64 n - 53) in round_quotient n dropped * dropped

-- How often the loop divides by 1024: the quotients are exact in a double.
unfoldable pub unit_index : ℕ → ℕ → ℕ → ℕ
unit_index zero unit value = unit
unit_index (suc left) unit value =
    let rest = unit_index left (unit + 1) value in
    if leb (1024 ^ (unit + 1)) value then rest else unit

unfoldable pub unit_name : ℕ → Bytes
unit_name zero = codes "B"
unit_name (suc zero) = codes "K"
unit_name (suc (suc zero)) = codes "M"
unit_name (suc (suc (suc zero))) = codes "G"
unit_name (suc (suc (suc (suc n)))) = codes "T"

-- "%.2f" of value / 1024 ^ unit, in hundredths.
unfoldable pub two_decimals : ℕ → Bytes
unfolding to_string
two_decimals hundredths =
    to_string (hundredths / 100)
    ++ (b'.' ∷ (b'0' + hundredths / 10 % 10) ∷ (b'0' + hundredths % 10) ∷ [])

unfoldable pub format_bytes_human : ℕ → Bytes
unfolding to_double unit_index unit_name two_decimals round_quotient to_string
format_bytes_human n =
    let value = to_double n in
    let unit = unit_index 4 0 value in
    if unit == 0
    then to_string n ++ codes "B"
    else two_decimals (round_quotient (value * 100) (1024 ^ unit)) ++ unit_name unit
