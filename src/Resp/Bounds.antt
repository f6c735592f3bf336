-- ===== src/Resp/Bounds.antt =====
-- src/resp.cpp: the bytes that `parseRespCommand` says it has taken.
use flash_kv.Common.{
  ℕ, zero, suc, ◌+◌, ◌≤◌, ◌≡◌, refl, Option, none, some, List, [], ◌∷◌, ◌++◌, arith, Bytes, length,
  take, drop, Bool-cases, Option-cases, inl, inr, ltb, ◌==◌, ◌&&◌,
}
use flash_kv.Common.Decimal.{parse_all}
use flash_kv.Resp.Tokenize.{tokenize_command_line}
use flash_kv.Resp.Parse.{
  RespParseResult, complete, max_arguments, max_bulk_size, max_inline_size, find_crlf, find_newline,
  tokenized, parse_inline_command, bounded, Bulk, read, fails, after_data, bulk_data, read_bulk,
  read_arguments, parse_array, parse_resp_command,
}

-- A complete command takes `low` bytes at least and `total` at most.
abbrev IsWithin : ℕ → ℕ → RespParseResult → Type 0
IsWithin low total r = r.status ≡ complete → (low ≤ r.consumed_bytes) × (r.consumed_bytes ≤ total)

abbrev IsBulkWithin : ℕ → ℕ → Bulk → Type 0
IsBulkWithin low total (read a p rest) = (low ≤ p) × (p + length rest ≡ total)
IsBulkWithin low total (fails r) = IsWithin low total r

pub length-find_crlf :
    (s line rest : Bytes)
    → find_crlf s ≡ some (line, rest)
    → length s ≡ length line + 2 + length rest
unfolding find_crlf
length-find_crlf [] line rest e = ground (arith, e)
length-find_crlf (a ∷ []) line rest e = ground (arith, e)
length-find_crlf (a ∷ b ∷ s) line rest e = elim (Bool-cases ((a == b'\r') && (b == b'\n'))) [
  | inl q ↦ ground (arith, e, q)
  | inr q ↦ elim (Option-cases (find_crlf (b ∷ s))) [
    | inl n ↦ ground (arith, e, q, n)
    | inr ((line', rest'), h) ↦ ground (arith, e, q, h, length-find_crlf (b ∷ s) line' rest' h)
  ]
]

after_data-IsBulkWithin :
    (low total : ℕ) (d : Bytes) (data_end : ℕ) (text : Bytes)
    → low ≤ data_end
    → data_end + length text ≡ total
    → IsBulkWithin low total (after_data d data_end text)
unfolding after_data
after_data-IsBulkWithin low total d data_end [] h e = λ q. ground (arith, q)
after_data-IsBulkWithin low total d data_end (a ∷ []) h e = λ q. ground (arith, q)
after_data-IsBulkWithin low total d data_end (a ∷ b ∷ s) h e =
    elim (Bool-cases ((a == b'\r') && (b == b'\n'))) [
      | inl q ↦ rw q (omega arith, omega (arith, e))
      | inr q ↦ rw q (λ p. ground (arith, p))
    ]

pub length-drop : (n : ℕ) (s : Bytes) → n ≤ length s → n + length (drop n s) ≡ length s
length-drop zero s h = omega arith
length-drop (suc n) [] h = absurd (omega arith)
length-drop (suc n) (c ∷ s) h = omega (arith, length-drop n s)

bulk_data-IsBulkWithin :
    (low total data_start n : ℕ) (text : Bytes)
    → low ≤ data_start
    → data_start + length text ≡ total
    → IsBulkWithin low total (bulk_data data_start n text)
unfolding bulk_data
bulk_data-IsBulkWithin low total data_start n text h e = elim (Bool-cases (ltb (length text) n)) [
  | inl short ↦ rw short (λ q. ground (arith, q))
  | inr long ↦ rw long (
      let fits : n ≤ length text = ground (arith, long) in
      after_data-IsBulkWithin low total (take n text) (data_start + n) (drop n text)
        (omega (arith, h)) (omega (arith, e, length-drop n text fits)))
]

read_bulk-IsBulkWithin :
    (low total position : ℕ) (text : Bytes)
    → low ≤ position
    → position + length text ≡ total
    → IsBulkWithin low total (read_bulk position text)
unfolding read_bulk
read_bulk-IsBulkWithin low total position [] h e = λ q. ground (arith, q)
read_bulk-IsBulkWithin low total position (c ∷ s) h e = elim (Bool-cases (c == b'$')) [
  | inr other ↦ rw other (λ q. ground (arith, q))
  | inl dollar ↦ rw dollar (elim (Option-cases (find_crlf s)) [
    | inl none_ ↦ rw (none_, read_bulk) (λ q. ground (arith, q))
    | inr ((header, rest), found) ↦ elim (Option-cases (bounded max_bulk_size (parse_all header))) [
      | inl bad ↦ rw (found, bad, read_bulk) (λ q. ground (arith, q))
      | inr (n, good) ↦
          rw (found, good, read_bulk)
            (bulk_data-IsBulkWithin low total (position + 1 + length header + 2) n rest
              (omega (arith, h)) (omega (arith, e, length-find_crlf s header rest found)))
    ]
  ])
]

one_round :
    (low total n position : ℕ) (text : Bytes) (arguments : List Bytes) (b : Bulk)
    → read_bulk position text ≡ b
    → IsBulkWithin low total b
    → ((p : ℕ) (rest : Bytes) (read_so_far : List Bytes)
        → low ≤ p
        → p + length rest ≡ total
        → IsWithin low total (read_arguments n p rest read_so_far))
    → IsWithin low total (read_arguments (suc n) position text arguments)
unfolding read_arguments
one_round low total n position text arguments (fails r) q w later = rw (q, read_arguments) w
one_round low total n position text arguments (read a p rest) q w later =
    rw (q, read_arguments) (later p rest (arguments ++ a ∷ []) w.0 w.1)

read_arguments-IsWithin :
    (low total n position : ℕ) (text : Bytes) (arguments : List Bytes)
    → low ≤ position
    → position + length text ≡ total
    → IsWithin low total (read_arguments n position text arguments)
read_arguments-IsWithin low total zero position text arguments h e =
    unfold read_arguments in λ q. (h, omega (arith, e))
read_arguments-IsWithin low total (suc n) position text arguments h e =
    one_round low total n position text arguments (read_bulk position text) refl
      (read_bulk-IsBulkWithin low total position text h e) (read_arguments-IsWithin low total n)

length-find_newline : (s line : Bytes) → find_newline s ≡ some line → length line + 1 ≤ length s
unfolding find_newline
length-find_newline [] line e = ground (arith, e)
length-find_newline (c ∷ s) line e = elim (Bool-cases (c == b'\n')) [
  | inl q ↦ ground (arith, e, q)
  | inr q ↦ elim (Option-cases (find_newline s)) [
    | inl n ↦ ground (arith, e, q, n)
    | inr (line', h) ↦ ground (arith, e, q, h, length-find_newline s line' h)
  ]
]

tokenized-IsWithin :
    (total line_end : ℕ) (o : Option (List Bytes))
    → line_end + 1 ≤ total
    → IsWithin 1 total (tokenized line_end o)
tokenized-IsWithin total line_end none h = λ q. ground (arith, q)
tokenized-IsWithin total line_end (some arguments) h = λ q. (omega arith, h)

parse_inline_command-IsWithin :
    (buffer : Bytes) → IsWithin 1 (length buffer) (parse_inline_command buffer)
unfolding parse_inline_command
parse_inline_command-IsWithin buffer = elim (Option-cases (find_newline buffer)) [
  | inl missing ↦
      rw (missing, parse_inline_command)
        (elim (Bool-cases (ltb max_inline_size (length buffer))) [
          | inl q ↦ rw q (λ p. ground (arith, p))
          | inr q ↦ rw q (λ p. ground (arith, p))
        ])
  | inr (line, found) ↦
      rw (found, parse_inline_command)
        (tokenized-IsWithin (length buffer) (length line) (tokenize_command_line line)
          (length-find_newline buffer line found))
]

parse_array-IsWithin : (s : Bytes) → IsWithin 1 (suc (length s)) (parse_array s)
unfolding parse_array
parse_array-IsWithin s = elim (Option-cases (find_crlf s)) [
  | inl missing ↦ rw (missing, parse_array) (λ p. ground (arith, p))
  | inr ((header, text), found) ↦ elim (Option-cases (bounded max_arguments (parse_all header))) [
    | inl bad ↦ rw (found, bad, parse_array) (λ p. ground (arith, p))
    | inr (n, good) ↦
        rw (found, good, parse_array)
          (read_arguments-IsWithin 1 (suc (length s)) n (1 + length header + 2) text []
            (omega arith) (omega (arith, length-find_crlf s header text found)))
  ]
]

parse_resp_command-IsWithin :
    (buffer : Bytes) → IsWithin 1 (length buffer) (parse_resp_command buffer)
unfolding parse_resp_command
parse_resp_command-IsWithin [] = λ q. ground (arith, q)
parse_resp_command-IsWithin (c ∷ s) = elim (Bool-cases (c == b'*')) [
  | inl star ↦ rw star (parse_array-IsWithin s)
  | inr other ↦ rw other (parse_inline_command-IsWithin (c ∷ s))
]

-- Where `parseRespCommand` answers that the command is complete, it has taken one byte at least
-- and no more than the buffer has.
pub parse_resp_command-consumed_bytes :
    (buffer : Bytes)
    → (parse_resp_command buffer).status ≡ complete
    → (1 ≤ (parse_resp_command buffer).consumed_bytes)
      × ((parse_resp_command buffer).consumed_bytes ≤ length buffer)
parse_resp_command-consumed_bytes buffer h = parse_resp_command-IsWithin buffer h
