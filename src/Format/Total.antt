-- ===== src/Format/Total.antt =====
-- src/reply_format.cpp: `formatReply` ends on every text.
use native.Mathlib.Nat.{le_refl}
use flash_kv.Common.{
  ℕ, zero, suc, ◌+◌, ◌≤◌, ◌≡◌, refl, arith, Bool, Option, none, some, [], ◌∷◌, ◌++◌, Bytes, codes,
  ltb, ◌==◌, length, Bool-cases, inl, inr,
}
use flash_kv.Common.Int.{ℤ, pos, negsuc}
use flash_kv.Common.Decimal.{to_string}
use flash_kv.Resp.Parse.{find_crlf}
use flash_kv.Resp.Bounds.{length-find_crlf, length-drop}
use flash_kv.Format.Reply.{
  stoll, Formatted, formatted, failed, exhausted, format_bulk, label, format_elements, format_array,
  format_line, format, shown, format_reply,
}

-- The fuel was enough, and at most `n` bytes are left.
abbrev IsWithin : ℕ → Formatted → Type 0
IsWithin n (formatted output rest) = length rest ≤ n
IsWithin n failed = Unit {0}
IsWithin n exhausted = ⊥

weaker : (m n : ℕ) (r : Formatted) → m ≤ n → IsWithin m r → IsWithin n r
weaker m n (formatted output rest) h w = omega (arith, h, w)
weaker m n failed h w = tt
weaker m n exhausted h w = w

format_bulk-IsWithin :
    (raw : Bool) (output text : Bytes) (size : Option ℤ)
    → IsWithin (length text) (format_bulk raw output text size)
unfolding format_bulk
format_bulk-IsWithin raw output text none = tt
format_bulk-IsWithin raw output text (some (negsuc n)) = le_refl (length text)
format_bulk-IsWithin raw output text (some (pos size)) =
    elim (Bool-cases (ltb (length text) (size + 2))) [
      | inl short ↦ rw short tt
      | inr long ↦
          let within : size + 2 ≤ length text = ground arith in
          rw long (omega (arith, length-drop (size + 2) text within))
    ]

module _ (n : ℕ) (inner : Bytes → ℕ → Bytes → Formatted)
    (calls : (output : Bytes) (indent : ℕ) (text : Bytes)
      → length text ≤ n
      → IsWithin (length text) (inner output indent text)) where
  format_elements-IsWithin :
      (indent width left i : ℕ) (output text : Bytes)
      → length text ≤ n
      → IsWithin (length text) (format_elements inner indent width left i output text)
  unfolding format_elements
  format_elements-IsWithin indent width zero i output text short = le_refl (length text)
  format_elements-IsWithin indent width (suc left) i output text short =
      go (inner (output ++ label indent width i) (indent + width + 2) text)
        (calls (output ++ label indent width i) (indent + width + 2) text short)
        (λ output' rest. format_elements-IsWithin indent width left (i + 1) output' rest)
    where
      go :
          (r : Formatted)
          → IsWithin (length text) r
          → ((output' rest : Bytes)
              → length rest ≤ n
              → IsWithin
                  (length rest)
                  (format_elements inner indent width left (i + 1) output' rest))
          → IsWithin (length text) (elim r [
            | formatted output' rest ↦ format_elements inner indent width left (i + 1) output' rest
            | failed ↦ failed
            | exhausted ↦ exhausted
          ])
      go (formatted output' rest) h next =
          weaker (length rest) (length text)
            (format_elements inner indent width left (i + 1) output' rest) h
            (next output' rest (omega (arith, h, short)))
      go failed h next = tt
      go exhausted h next = h

  format_array-IsWithin :
      (indent : ℕ) (output text : Bytes) (count : Option ℤ)
      → length text ≤ n
      → IsWithin (length text) (format_array inner indent output text count)
  unfolding format_array
  format_array-IsWithin indent output text none short = tt
  format_array-IsWithin indent output text (some (negsuc m)) short = le_refl (length text)
  format_array-IsWithin indent output text (some (pos zero)) short = le_refl (length text)
  format_array-IsWithin indent output text (some (pos (suc m))) short =
      format_elements-IsWithin indent (length (to_string (suc m))) (suc m) 1 output text short

  format_line-IsWithin :
      (raw : Bool) (prefix indent : ℕ) (output line rest : Bytes)
      → length rest ≤ n
      → IsWithin (length rest) (format_line inner raw prefix indent output (line, rest))
  unfolding format_line
  format_line-IsWithin raw prefix indent output line rest short =
      elim (Bool-cases (prefix == b'+')) [
        | inl a ↦ rw a (le_refl (length rest))
        | inr a ↦ rw a (elim (Bool-cases (prefix == b'-')) [
          | inl b ↦ rw b (le_refl (length rest))
          | inr b ↦ rw b (elim (Bool-cases (prefix == b':')) [
            | inl c ↦ rw c (le_refl (length rest))
            | inr c ↦ rw c (elim (Bool-cases (prefix == b'$')) [
              | inl d ↦ rw d (format_bulk-IsWithin raw output rest (stoll line))
              | inr d ↦ rw d (elim (Bool-cases (prefix == b'*')) [
                | inl e ↦ rw e (format_array-IsWithin indent output rest (stoll line) short)
                | inr e ↦ rw e tt
              ])
            ])
          ])
        ])
      ]

format-IsWithin :
    (fuel : ℕ) (raw : Bool) (output : Bytes) (indent : ℕ) (text : Bytes)
    → length text ≤ fuel
    → IsWithin (length text) (format fuel raw output indent text)
unfolding format
format-IsWithin fuel raw output indent [] enough = tt
format-IsWithin zero raw output indent (prefix ∷ text) enough = absurd (omega (arith, enough))
format-IsWithin (suc fuel) raw output indent (prefix ∷ text) enough =
    go (find_crlf text) refl (format-IsWithin fuel raw)
  where
    go :
        (o : Option (Bytes × Bytes))
        → find_crlf text ≡ o
        → ((output : Bytes) (indent : ℕ) (text : Bytes)
            → length text ≤ fuel
            → IsWithin (length text) (format fuel raw output indent text))
        → IsWithin (length (prefix ∷ text)) (elim o [
          | none ↦ failed
          | some found ↦ format_line (format fuel raw) raw prefix indent output found
        ])
    go none e calls = tt
    go (some (line, rest)) e calls =
        let shorter = length-find_crlf text line rest e in
        weaker (length rest) (length (prefix ∷ text))
          (format_line (format fuel raw) raw prefix indent output (line, rest))
          (omega (arith, shorter))
          (format_line-IsWithin fuel (format fuel raw) calls raw prefix indent output line rest
            (omega (arith, shorter, enough)))

-- On every text, raw or not, `formatReply` comes to an output within its fuel, which is one level
-- of nesting for each byte.
pub format_reply_returns :
    (reply : Bytes) (raw : Bool) → (output : Bytes) × (format_reply reply raw ≡ some output)
unfolding format_reply
format_reply_returns reply raw =
    go (format (length reply) raw [] 0 reply)
      (format-IsWithin (length reply) raw [] 0 reply (le_refl (length reply)))
  where
    go : (r : Formatted) → IsWithin (length reply) r → (output : Bytes) × (shown r ≡ some output)
    go (formatted output rest) h = (output, refl)
    go failed h = (codes "(protocol error)", refl)
    go exhausted h = absurd h
