-- ===== src/Resp/Total.antt =====
-- src/resp.cpp: the loops of `tokenizeCommandLine` end within the fuel.
use flash_kv.Common.{
  ℕ, zero, suc, ◌+◌, ◌*◌, ◌≤◌, ◌<◌, ◌≡◌, refl, Option, none, some, List, [], ◌∷◌, arith, Bytes,
  length, Bool-cases, inl, inr, if◌then◌else◌, is_empty, ◌==◌, ◌&&◌,
}
use flash_kv.Resp.Tokenize.{
  is_space, hex_value, hex_pair, decoded, unescape, ends, close, in_double, in_single, in_bare,
  bare, double, single, Scan, between, within, Next, finished, go, scan_step, scan_loop, scan_fuel,
}

-- How many steps are left at most. On the same text an argument begins before a character that is no
-- space, and ends before a space.
abbrev rank : Bytes → ℕ
rank [] = 0
rank (c ∷ s) = if is_space c then 0 else 2

abbrev weight : Next → ℕ
weight (finished result) = 0
weight (go (between arguments s)) = length s * 3 + rank s + 1
weight (go (within q current arguments s)) = length s * 3 + 2

rank-le : (s : Bytes) → rank s ≤ 2
rank-le [] = omega arith
rank-le (c ∷ s) = elim (Bool-cases (is_space c)) [
  | inl e ↦ rw e (omega arith)
  | inr e ↦ rw e (omega arith)
]

decoded-le :
    (e a b : ℕ) (s : Bytes) (o : Option ℕ) → length (decoded e a b s o).1 ≤ suc (suc (length s))
decoded-le e a b s none = omega arith
decoded-le e a b s (some byte) = omega arith

unescape-le : (e : ℕ) (s : Bytes) → length (unescape e s).1 ≤ length s
unfolding unescape
unescape-le e [] = omega arith
unescape-le e (a ∷ []) = omega arith
unescape-le e (a ∷ b ∷ s) = decoded-le e a b s (hex_pair e (hex_value a) (hex_value b))

close-weight :
    (current : Bytes) (arguments : List Bytes) (s : Bytes)
    → weight (close current arguments s) ≤ length s * 3 + 3
close-weight current arguments s = elim (Bool-cases (ends s)) [
  | inl e ↦ rw e (omega (arith, rank-le s))
  | inr e ↦ rw e (omega arith)
]

in_double-weight :
    (current : Bytes) (arguments : List Bytes) (c : ℕ) (s : Bytes)
    → weight (in_double current arguments c s) ≤ length s * 3 + 3
unfolding in_double
in_double-weight current arguments c [] = elim (Bool-cases (c == b'"')) [
  | inl e ↦ rw e (close-weight current arguments [])
  | inr e ↦ rw e (omega arith)
]
in_double-weight current arguments c (x ∷ s) = elim (Bool-cases (c == b'\\')) [
  | inl e ↦ rw e (omega (arith, unescape-le x s))
  | inr e ↦ rw e (elim (Bool-cases (c == b'"')) [
    | inl q ↦ rw q (close-weight current arguments (x ∷ s))
    | inr q ↦ rw q (omega arith)
  ])
]

in_single-weight :
    (current : Bytes) (arguments : List Bytes) (c : ℕ) (s : Bytes)
    → weight (in_single current arguments c s) ≤ length s * 3 + 3
unfolding in_single
in_single-weight current arguments c [] = elim (Bool-cases (c == b'\'')) [
  | inl e ↦ rw e (close-weight current arguments [])
  | inr e ↦ rw e (omega arith)
]
in_single-weight current arguments c (x ∷ s) = elim (Bool-cases (c == b'\\' && x == b'\'')) [
  | inl e ↦ rw e (omega arith)
  | inr e ↦ rw e (elim (Bool-cases (c == b'\'')) [
    | inl q ↦ rw q (close-weight current arguments (x ∷ s))
    | inr q ↦ rw q (omega arith)
  ])
]

in_bare-weight :
    (current : Bytes) (arguments : List Bytes) (c : ℕ) (s : Bytes)
    → weight (in_bare current arguments c s) ≤ length s * 3 + 4
unfolding in_bare
in_bare-weight current arguments c s = elim (Bool-cases (is_space c)) [
  | inl e ↦ rw e (rw e (omega arith))
  | inr e ↦ rw e (elim (Bool-cases (c == b'"' && is_empty current)) [
    | inl q ↦ rw q (omega arith)
    | inr q ↦ rw q (elim (Bool-cases (c == b'\'' && is_empty current)) [
      | inl r ↦ rw r (omega arith)
      | inr r ↦ rw r (omega arith)
    ])
  ])
]

scan_step-lt : (scan : Scan) → weight (scan_step scan) < weight (go scan)
unfolding scan_step
scan_step-lt (between arguments []) = omega arith
scan_step-lt (between arguments (c ∷ s)) = elim (Bool-cases (is_space c)) [
  | inl e ↦ rw e (omega (arith, rank-le s))
  | inr e ↦ rw e (omega arith)
]
scan_step-lt (within bare current arguments []) = omega arith
scan_step-lt (within double current arguments []) = omega arith
scan_step-lt (within single current arguments []) = omega arith
scan_step-lt (within double current arguments (c ∷ s)) =
    omega (arith, in_double-weight current arguments c s)
scan_step-lt (within single current arguments (c ∷ s)) =
    omega (arith, in_single-weight current arguments c s)
scan_step-lt (within bare current arguments (c ∷ s)) =
    omega (arith, in_bare-weight current arguments c s)

scan_loop-returns :
    (fuel : ℕ) (next : Next)
    → weight next ≤ fuel
    → (result : Option (List Bytes)) × (scan_loop fuel next ≡ some result)
unfolding scan_loop
scan_loop-returns fuel (finished result) h = (result, refl)
scan_loop-returns zero (go (between arguments s)) h = absurd (omega arith)
scan_loop-returns zero (go (within q current arguments s)) h = absurd (omega arith)
scan_loop-returns (suc fuel) (go scan) h =
    scan_loop-returns fuel (scan_step scan) (omega (arith, scan_step-lt scan))

-- On every line the loops of `tokenizeCommandLine` come to a result within the fuel, which is
-- three steps for each character and three.
pub scan_loop-scan_fuel :
    (line : Bytes)
    → (result : Option (List Bytes)) × (scan_loop (scan_fuel line) (go (between [] line))
        ≡ some result)
scan_loop-scan_fuel line =
    scan_loop-returns (scan_fuel line) (go (between [] line)) (omega (arith, rank-le line))
