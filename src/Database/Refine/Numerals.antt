-- ===== src/Database/Refine/Numerals.antt =====
-- What the increments promise of texts, described without the code: the value of a decimal text,
-- and a sum that fits.
use flash_kv.Common.{
  ℕ, zero, suc, ◌+◌, ◌-◌, ◌*◌, ◌^◌, ◌≡◌, refl, sym, ap, ◌∙◌, arith, Bool, true, false, ◌&&◌, Option,
  none, some, [], ◌∷◌, Bytes, if◌then◌else◌, ltb, leb, ◌==◌, length, Bool-cases, inl, inr,
}
use flash_kv.Common.Int.{ℤ, pos, negsuc, ◌+ℤ◌, in_range, checked_add}
use flash_kv.Common.Decimal.{
  is_digit, scan_digits, scan_magnitude, from_chars, parse_all, whole, signed, fitting, to_string,
  to_string_ℤ,
}
use flash_kv.Common.Numerals.{parse_all-to_string, scan_magnitude-to_string}
use flash_kv.Database.Strings.{parse_strict_integer}

-- The value of a text of digits: each counts by its distance from the end.
abbrev pub number : Bytes → ℕ
number [] = 0
number (c ∷ s) = (c - 48) * 10 ^ length s + number s

abbrev pub all_digits : Bytes → Bool
all_digits [] = true
all_digits (c ∷ s) = (leb 48 c && leb c 57) && all_digits s

-- From 0 to 2^63 - 1 without a sign, from -2^63 to 0 behind a minus sign.
abbrev pub positive : ℕ → Option ℤ
positive n = if ltb n (2 ^ 63) then some (pos n) else none

abbrev pub negative : ℕ → Option ℤ
negative zero = some (pos 0)
negative (suc n) = if ltb n (2 ^ 63) then some (negsuc n) else none

-- One digit at least.
abbrev pub is_number : Bytes → Bool
is_number [] = false
is_number (c ∷ s) = all_digits (c ∷ s)

-- The integer of 64 bits that a text stands for, if it stands for one.
abbrev pub integer : Bytes → Option ℤ
integer [] = none
integer (c ∷ s) =
    if c == 45
    then (if is_number s then negative (number s) else none)
    else (if is_number (c ∷ s) then positive (number (c ∷ s)) else none)

-- The sum of two integers, if it is one of 64 bits.
abbrev pub exact_sum : ℤ → ℤ → Option ℤ
exact_sum a b = if in_range (a +ℤ b) then some (a +ℤ b) else none

pub checked_add-exact_sum : (a b : ℤ) → checked_add a b ≡ exact_sum a b
unfolding checked_add
checked_add-exact_sum a b = refl

shifted : (n d p rest : ℕ) → (n * 10 + d) * p + rest ≡ n * (10 * p) + (d * p + rest)
shifted n d p rest = omega arith

pow_suc : (m : ℕ) → 10 ^ suc m ≡ 10 * 10 ^ m
pow_suc m = omega arith

from_zero : (p m : ℕ) → 0 * p + m ≡ m
from_zero p m = omega arith

scan_digits-number :
    (s : Bytes) (n : ℕ) → all_digits s ≡ true → scan_digits s n ≡ (n * 10 ^ length s + number s, [])
unfolding scan_digits
scan_digits-number [] n h = ap (λ m. (m, [])) (omega arith)
scan_digits-number (c ∷ s) n h =
    let digit : is_digit c ≡ true = ground (arith, h) in
    let others : all_digits s ≡ true = ground (arith, h) in
    rw digit (
      scan_digits-number s (n * 10 + (c - 48)) others
      ∙ ap (λ m. (m, []))
          (shifted n (c - 48) (10 ^ length s) (number s)
            ∙ ap (λ p. n * p + number (c ∷ s)) (sym (pow_suc (length s)))))

scan_digits-rest :
    (s : Bytes) (n : ℕ)
    → all_digits s ≡ false
    → (c : ℕ) × (r : Bytes) × ((scan_digits s n).1 ≡ c ∷ r)
unfolding scan_digits
scan_digits-rest [] n h = ground (arith, h)
scan_digits-rest (c ∷ s) n h = elim (Bool-cases (is_digit c)) [
  | inl digit ↦
      let others : all_digits s ≡ false = ground (arith, h, digit) in
      rw digit (scan_digits-rest s (n * 10 + (c - 48)) others)
  | inr other ↦ rw other (c, s, refl)
]

whole-fitting : (z : ℤ) → whole (fitting z []) ≡ (if in_range z then some z else none)
whole-fitting z = elim (Bool-cases (in_range z)) [
  | inl fits ↦ rw fits refl
  | inr beyond ↦ rw beyond refl
]

whole-fitting_rest : (z : ℤ) (c : ℕ) (r : Bytes) → whole (fitting z (c ∷ r)) ≡ none
whole-fitting_rest z c r = elim (Bool-cases (in_range z)) [
  | inl fits ↦ rw fits refl
  | inr beyond ↦ rw beyond refl
]

abbrev with_sign : Bool → ℕ → Option ℤ
with_sign true n = negative n
with_sign false n = positive n

whole-signed-some : (minus : Bool) (n : ℕ) → whole (signed minus (some (n, []))) ≡ with_sign minus n
whole-signed-some false n = whole-fitting (pos n)
whole-signed-some true zero = refl
whole-signed-some true (suc n) = whole-fitting (negsuc n)

whole-signed_rest :
    (minus : Bool) (n c : ℕ) (r : Bytes) → whole (signed minus (some (n, c ∷ r))) ≡ none
whole-signed_rest false n c r = whole-fitting_rest (pos n) c r
whole-signed_rest true zero c r = refl
whole-signed_rest true (suc n) c r = whole-fitting_rest (negsuc n) c r

-- The loop reads the whole text or leaves some of it.
whole-signed_scan :
    (minus : Bool) (s : Bytes) (r : ℕ × Bytes)
    → scan_digits s 0 ≡ r
    → whole (signed minus (some r)) ≡ (if all_digits s then with_sign minus (number s) else none)
whole-signed_scan minus s (n, r) e = elim (Bool-cases (all_digits s)) [
  | inl digits ↦
      let scanned : (0 * 10 ^ length s + number s, []) ≡ (n, r) =
        sym (scan_digits-number s 0 digits) ∙ e in
      let left : r ≡ [] = sym (ap (λ p. p.1) scanned) in
      let value : n ≡ number s =
        sym (ap (λ p. p.0) scanned) ∙ from_zero (10 ^ length s) (number s) in
      rw (digits, left, value) (whole-signed-some minus (number s))
  | inr other ↦
      let (c, t, rest) = scan_digits-rest s 0 other in
      let left : r ≡ c ∷ t = sym (ap (λ p. p.1) e) ∙ rest in
      rw (other, left) (whole-signed_rest minus n c t)
]

scan_magnitude_digit :
    (c : ℕ) (s : Bytes) → is_digit c ≡ true → scan_magnitude (c ∷ s) ≡ some (scan_digits (c ∷ s) 0)
unfolding scan_magnitude
scan_magnitude_digit c s digit = rw digit refl

whole-signed :
    (minus : Bool) (s : Bytes)
    → whole (signed minus (scan_magnitude s))
      ≡ (if is_number s then with_sign minus (number s) else none)
whole-signed true [] = unfold scan_magnitude in refl
whole-signed false [] = unfold scan_magnitude in refl
whole-signed minus (c ∷ s) = elim (Bool-cases (is_digit c)) [
  | inl digit ↦
      ap (λ o. whole (signed minus o)) (scan_magnitude_digit c s digit)
      ∙ whole-signed_scan minus (c ∷ s) (scan_digits (c ∷ s) 0) refl
  | inr other ↦ unfold scan_magnitude in rw other (no_number minus)
]
  where
    no_number : (minus : Bool) → whole (signed minus none) ≡ none
    no_number true = refl
    no_number false = refl

pub parse_strict_integer-integer : (text : Bytes) → parse_strict_integer text ≡ integer text
unfolding parse_strict_integer parse_all from_chars
parse_strict_integer-integer [] = refl
parse_strict_integer-integer (c ∷ s) = elim (Bool-cases (c == 45)) [
  | inl minus ↦ rw minus (whole-signed true s)
  | inr other ↦ rw other (whole-signed false (c ∷ s))
]

parse_strict_integer_all : (text : Bytes) → parse_strict_integer text ≡ parse_all text
unfolding parse_strict_integer parse_all from_chars
parse_strict_integer_all [] = refl
parse_strict_integer_all (c ∷ s) = refl

parse_all_minus :
    (s : Bytes) (n : ℕ)
    → scan_magnitude s ≡ some (suc n, [])
    → in_range (negsuc n) ≡ true
    → parse_all (45 ∷ s) ≡ some (negsuc n)
unfolding parse_all from_chars
parse_all_minus s n scanned fits = rw (scanned, fits) refl

-- The text of a number stands for it.
pub integer-to_string_ℤ : (z : ℤ) → in_range z ≡ true → integer (to_string_ℤ z) ≡ some z
unfolding to_string_ℤ
integer-to_string_ℤ (pos n) fits =
    sym (parse_strict_integer-integer (to_string n))
    ∙ parse_strict_integer_all (to_string n)
    ∙ parse_all-to_string n (ground (arith, fits))
integer-to_string_ℤ (negsuc n) fits =
    sym (parse_strict_integer-integer (45 ∷ to_string (suc n)))
    ∙ parse_strict_integer_all (45 ∷ to_string (suc n))
    ∙ parse_all_minus (to_string (suc n)) n (scan_magnitude-to_string (suc n)) fits
