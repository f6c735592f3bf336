-- ===== src/Format/RoundTrip.antt =====
-- src/reply_format.cpp and src/resp.cpp: a quoted text is read back by `tokenizeCommandLine`.
use flash_kv.Common.{
  ℕ, zero, suc, ◌+◌, ◌*◌, ◌/◌, ◌%◌, ◌≤◌, ◌<◌, ◌≡◌, refl, sym, ap, ◌∙◌, arith, false, ◌||◌, Option,
  none, some, List, [], ◌∷◌, ◌++◌, Bytes, ltb, leb, ◌==◌, length, append_assoc, append-nil,
  length-append, Bool-cases, inl, inr,
}
use flash_kv.Resp.Tokenize.{
  is_space, hex_value, escape, hex_pair, decoded, unescape, double, within, go, in_double, in_bare,
  scan_step, scan_loop, scan_fuel, returned, tokenize_command_line,
}
use flash_kv.Format.Quote.{hex_digit, quote_byte, quote_bytes, quote}

-- Every byte is below 256.
abbrev pub AreBytes : Bytes → Type 0
AreBytes [] = Unit {0}
AreBytes (c ∷ s) = (c < 256) × AreBytes s

hex_value-hex_digit : (n : ℕ) → n < 16 → hex_value (hex_digit n) ≡ some n
unfolding hex_value hex_digit
hex_value-hex_digit n h = ground arith

-- An escape other than `\x` takes its character only.
unescape_plain : (e : ℕ) (s : Bytes) → (e == b'x') ≡ false → unescape e s ≡ (escape e, s)
unfolding unescape
unescape_plain e [] h = refl
unescape_plain e (a ∷ []) h = refl
unescape_plain e (a ∷ b ∷ s) h = go_ (hex_value a) (hex_value b)
  where
    go_ : (x y : Option ℕ) → decoded e a b s (hex_pair e x y) ≡ (escape e, a ∷ b ∷ s)
    go_ none y = refl
    go_ (some x) none = refl
    go_ (some x) (some y) = rw h refl

unescape_hex :
    (c : ℕ) (s : Bytes)
    → c < 256
    → unescape b'x' (hex_digit (c / 16) ∷ hex_digit (c % 16) ∷ s) ≡ (c, s)
unfolding unescape
unescape_hex c s h =
    let high : c / 16 < 16 = omega arith in
    let low : c % 16 < 16 = omega arith in
    let whole : c / 16 * 16 + c % 16 ≡ c = omega arith in
    rw (hex_value-hex_digit (c / 16) high, hex_value-hex_digit (c % 16) low, whole) refl

module _ (current : Bytes) (arguments : List Bytes) where
  in_double_escape :
      (e c : ℕ) (s rest : Bytes)
      → unescape e s ≡ (c, rest)
      → in_double current arguments b'\\' (e ∷ s)
        ≡ go (within double (current ++ c ∷ []) arguments rest)
  unfolding in_double
  in_double_escape e c s rest h = rw h refl

  in_double_other :
      (c x : ℕ) (s : Bytes)
      → (c == b'\\') ≡ false
      → (c == b'"') ≡ false
      → in_double current arguments c (x ∷ s)
        ≡ go (within double (current ++ c ∷ []) arguments (x ∷ s))
  unfolding in_double
  in_double_other c x s h q = rw (h, q) refl

  -- A quoted byte is one step of the loop.
  scan_step-quote_byte :
      (c x : ℕ) (s : Bytes)
      → c < 256
      → scan_step (within double current arguments (quote_byte c ++ x ∷ s))
        ≡ go (within double (current ++ c ∷ []) arguments (x ∷ s))
  unfolding scan_step quote_byte
  scan_step-quote_byte c x s small = elim (Bool-cases (c == b'\\')) [
    | inl q ↦ rw q (escaped b'\\' refl (ground arith))
    | inr q ↦ rw q (elim (Bool-cases (c == b'"')) [
      | inl r ↦ rw r (escaped b'"' refl (ground arith))
      | inr r ↦ rw r (elim (Bool-cases (c == 10)) [
        | inl t ↦ rw t (escaped b'n' refl (ground arith))
        | inr t ↦ rw t (elim (Bool-cases (c == 13)) [
          | inl u ↦ rw u (escaped b'r' refl (ground arith))
          | inr u ↦ rw u (elim (Bool-cases (c == 9)) [
            | inl v ↦ rw v (escaped b't' refl (ground arith))
            | inr v ↦ rw v (elim (Bool-cases (ltb c 32 || leb 127 c)) [
              | inl w ↦ rw w (
                  in_double_escape b'x' c (hex_digit (c / 16) ∷ hex_digit (c % 16) ∷ x ∷ s) (x ∷ s)
                    (unescape_hex c (x ∷ s) small))
              | inr w ↦ rw w (in_double_other c x s q r)
            ])
          ])
        ])
      ])
    ])
  ]
    where
      escaped :
          (e : ℕ)
          → (e == b'x') ≡ false
          → escape e ≡ c
          → in_double current arguments b'\\' (e ∷ x ∷ s)
            ≡ go (within double (current ++ c ∷ []) arguments (x ∷ s))
      escaped e other same =
          in_double_escape e c (x ∷ s) (x ∷ s)
            (unescape_plain e (x ∷ s) other ∙ ap (λ n. (n, x ∷ s)) same)

closed_by_quote : (l : Bytes) → (x : ℕ) × (s : Bytes) × (l ++ b'"' ∷ [] ≡ x ∷ s)
closed_by_quote [] = (b'"', [], refl)
closed_by_quote (x ∷ l) = (x, l ++ b'"' ∷ [], refl)

-- The loop takes the quoted bytes, the closing quote and the end of the line.
scan_loop-quote_bytes :
    (fuel : ℕ) (current value : Bytes)
    → AreBytes value
    → length value + 2 ≤ fuel
    → scan_loop fuel (go (within double current [] (quote_bytes value ++ b'"' ∷ [])))
      ≡ some (some ((current ++ value) ∷ []))
unfolding quote_bytes scan_loop
scan_loop-quote_bytes zero current value small enough = absurd (omega (arith, enough))
scan_loop-quote_bytes (suc zero) current value small enough = absurd (omega (arith, enough))
scan_loop-quote_bytes (suc (suc fuel)) current [] small enough =
    unfold scan_step in_double in rw (append-nil current) refl
scan_loop-quote_bytes (suc (suc fuel)) current (c ∷ value) (byte, small) enough =
    let (x, s, e) = closed_by_quote (quote_bytes value) in
    ap (λ t. scan_loop (suc fuel) (scan_step (within double current [] t)))
      (append_assoc (quote_byte c) (quote_bytes value) (b'"' ∷ []) ∙ ap (λ t. quote_byte c ++ t) e)
    ∙ ap (scan_loop (suc fuel)) (scan_step-quote_byte current [] c x s byte)
    ∙ ap (λ t. scan_loop (suc fuel) (go (within double (current ++ c ∷ []) [] t))) (sym e)
    ∙ scan_loop-quote_bytes (suc fuel) (current ++ c ∷ []) value small (omega (arith, enough))
    ∙ ap (λ t. some (some (t ∷ []))) (append_assoc current (c ∷ []) value)

length-quote_byte : (c : ℕ) → 1 ≤ length (quote_byte c)
unfolding quote_byte
length-quote_byte c = ground arith

length-quote_bytes : (value : Bytes) → length value ≤ length (quote_bytes value)
unfolding quote_bytes
length-quote_bytes [] = omega arith
length-quote_bytes (c ∷ value) = omega (
  arith,
  length-quote_byte c,
  length-quote_bytes value,
  length-append (quote_byte c) (quote_bytes value),
)

-- For any text of bytes below 256, `tokenizeCommandLine` reads what `quote` wrote as one argument,
-- which is the text.
pub tokenize_command_line-quote :
    (value : Bytes) → AreBytes value → tokenize_command_line (quote value) ≡ some (value ∷ [])
unfolding tokenize_command_line scan_loop quote
tokenize_command_line-quote value small =
    let line = quote_bytes value ++ b'"' ∷ [] in
    let fuel : scan_fuel (b'"' ∷ line) ≡ suc (suc (length line * 3 + 4)) = omega arith in
    let enough : length value + 2 ≤ length line * 3 + 4 =
      omega (arith, length-quote_bytes value, length-append (quote_bytes value) (b'"' ∷ [])) in
    rw fuel (
      ap returned (
        unfold scan_step in_bare is_space in
        scan_loop-quote_bytes (length line * 3 + 4) [] value small enough))
