-- ===== src/Common/Numerals.antt =====
-- A number that `to_string` has printed is read back, by `from_chars` to its end.
use native.Mathlib.Omega.{arith}
use Prim.Native.Nat.{ℕ, zero, suc, ◌+◌, ◌-◌, ◌*◌, ◌/◌, ◌%◌, ◌<◌, ◌^◌}
use mathlib.Core.Path.{◌≡◌, refl, sym, ap, ◌∙◌}
use mathlib.Core.Logic.{inl, inr}
use mathlib.Core.Bool.{Bool, true, false, not, ◌&&◌}
use mathlib.Core.List.{[], ◌∷◌}
use mathlib.Core.Option.{some}
use flash_kv.Common.Tests.{Bytes, ltb, ◌==◌, Bool-cases}
use flash_kv.Common.Int.{pos}
use flash_kv.Common.Decimal.{is_digit, scan_digits, scan_magnitude, parse_all, show_from, to_string}

scan_digits-digit :
    (c : ℕ) (s : Bytes) (n : ℕ)
    → is_digit c ≡ true
    → scan_digits (c ∷ s) n ≡ scan_digits s (n * 10 + (c - 48))
unfolding scan_digits
scan_digits-digit c s n d = rw d

scan_digits-show_from :
    (fuel n : ℕ) (out : Bytes) → n < fuel → scan_digits (show_from fuel n out) 0 ≡ scan_digits out n
unfolding show_from
scan_digits-show_from zero n out h = absurd (omega arith)
scan_digits-show_from (suc fuel) n out h = elim (Bool-cases (ltb n 10)) [
  | inl small ↦
      let value : 0 * 10 + (48 + n - 48) ≡ n = omega arith in
      let digit : is_digit (48 + n) ≡ true = ground arith in
      rw small (scan_digits-digit (48 + n) out 0 digit ∙ ap (scan_digits out) value)
  | inr large ↦
      let less : n / 10 < fuel = ground arith in
      let value : n / 10 * 10 + (48 + n % 10 - 48) ≡ n = omega arith in
      let digit : is_digit (48 + n % 10) ≡ true = ground arith in
      rw large (
        scan_digits-show_from fuel (n / 10) ((48 + n % 10) ∷ out) less
        ∙ scan_digits-digit (48 + n % 10) out (n / 10) digit
        ∙ ap (scan_digits out) value)
]

-- The first byte is a digit.
show_from-head :
    (fuel n : ℕ) (out : Bytes)
    → n < fuel
    → (c : ℕ) × (s : Bytes) × (show_from fuel n out ≡ c ∷ s) × (is_digit c ≡ true)
unfolding show_from
show_from-head zero n out h = absurd (omega arith)
show_from-head (suc fuel) n out h = elim (Bool-cases (ltb n 10)) [
  | inl small ↦ rw small (48 + n, out, refl, ground arith)
  | inr large ↦
      let less : n / 10 < fuel = ground arith in
      rw large (show_from-head fuel (n / 10) ((48 + n % 10) ∷ out) less)
]

-- `std::from_chars` on a text that begins with a digit and consists of the number n.
parse_all-digits :
    (c : ℕ) (s : Bytes) (n : ℕ)
    → is_digit c ≡ true
    → scan_digits s (0 * 10 + (c - 48)) ≡ (n, [])
    → n < 2 ^ 63
    → parse_all (c ∷ s) ≡ some (pos n)
unfolding parse_all
parse_all-digits c s n digit scanned small =
    let unsigned : (c == b'-') ≡ false = ground arith in
    let fits : ltb n (2 ^ 63) ≡ true = ground arith in rw (unsigned, digit, scanned, fits)

pub parse_all-to_string : (n : ℕ) → n < 2 ^ 63 → parse_all (to_string n) ≡ some (pos n)
unfolding to_string
parse_all-to_string n small =
    let enough : n < suc n = omega arith in
    let (c, s, shown, digit) = show_from-head (suc n) n [] enough in
    ap parse_all shown
    ∙ parse_all-digits c s n digit
        (sym (scan_digits-digit c s 0 digit)
          ∙ ap (λ t. scan_digits t 0) (sym shown)
          ∙ scan_digits-show_from (suc n) n [] enough
          ∙ scan_end n)
        small
  where
    scan_end : (n : ℕ) → scan_digits [] n ≡ (n, [])
    scan_end n = unfold scan_digits in refl

pub scan_magnitude-to_string : (n : ℕ) → scan_magnitude (to_string n) ≡ some (n, [])
unfolding to_string
scan_magnitude-to_string n =
    let enough : n < suc n = omega arith in
    let (c, s, shown, digit) = show_from-head (suc n) n [] enough in
    ap scan_magnitude shown
    ∙ first_digit c s digit
    ∙ ap (λ t. some (scan_digits t 0)) (sym shown)
    ∙ ap some (scan_digits-show_from (suc n) n [] enough ∙ scan_end n)
  where
    first_digit :
        (c : ℕ) (s : Bytes)
        → is_digit c ≡ true
        → scan_magnitude (c ∷ s) ≡ some (scan_digits (c ∷ s) 0)
    first_digit c s digit = unfold scan_magnitude in rw digit refl

    scan_end : (n : ℕ) → scan_digits [] n ≡ (n, [])
    scan_end n = unfold scan_digits in refl

-- No carriage return in the text.
abbrev pub is_plain : Bytes → Bool
is_plain [] = true
is_plain (c ∷ s) = not (c == 13) && is_plain s

show_from-is_plain :
    (fuel n : ℕ) (out : Bytes) → is_plain out ≡ true → is_plain (show_from fuel n out) ≡ true
unfolding show_from
show_from-is_plain zero n out h = h
show_from-is_plain (suc fuel) n out h = elim (Bool-cases (ltb n 10)) [
  | inl small ↦ rw small (ground arith)
  | inr large ↦ rw large (show_from-is_plain fuel (n / 10) ((48 + n % 10) ∷ out) (ground arith))
]

pub to_string-is_plain : (n : ℕ) → is_plain (to_string n) ≡ true
unfolding to_string
to_string-is_plain n = show_from-is_plain (suc n) n [] refl
