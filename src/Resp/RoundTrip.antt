-- ===== src/Resp/RoundTrip.antt =====
-- src/resp.cpp: `parseRespCommand` reads back what `respArray` wrote, as the append-only file needs.
use flash_kv.Common.{
  ℕ, suc, ◌+◌, ◌≤◌, ◌<◌, ◌^◌, ◌≡◌, refl, ap, ◌∙◌, true, false, some, List, [], ◌∷◌, ◌++◌, arith,
  Bytes, length, take, drop, ltb, leb, ◌==◌, append_assoc, append-nil, length-append,
}
use flash_kv.Common.Decimal.{parse_all, to_string}
use flash_kv.Common.Numerals.{parse_all-to_string, is_plain, to_string-is_plain}
use flash_kv.Resp.Encode.{crlf, resp_bulk_string, bulk_strings, resp_array}
use flash_kv.Resp.Parse.{
  max_arguments, max_bulk_size, complete_result, find_crlf, bounded, read, after_data, bulk_data,
  read_bulk, read_arguments, parse_array, parse_resp_command,
}

-- The limits of the parser on the arguments of a command.
abbrev pub AreWithinLimits : List Bytes → Type 0
AreWithinLimits [] = Unit {0}
AreWithinLimits (argument ∷ arguments) =
    (length argument ≤ max_bulk_size) × AreWithinLimits arguments

find_crlf-plain :
    (line rest : Bytes)
    → is_plain line ≡ true
    → find_crlf (line ++ b'\r' ∷ b'\n' ∷ rest) ≡ some (line, rest)
unfolding find_crlf
find_crlf-plain [] rest h = refl
find_crlf-plain (a ∷ []) rest h = let other : (a == b'\r') ≡ false = ground arith in rw other refl
find_crlf-plain (a ∷ b ∷ line) rest h =
    let other : (a == b'\r') ≡ false = ground arith in
    let further : is_plain (b ∷ line) ≡ true = ground arith in
    rw (other, find_crlf-plain (b ∷ line) rest further)

take-append : (s t : Bytes) → take (length s) (s ++ t) ≡ s
take-append [] t = refl
take-append (c ∷ s) t = ap (λ u. c ∷ u) (take-append s t)

pub drop-append : (s t : Bytes) → drop (length s) (s ++ t) ≡ t
drop-append [] t = refl
drop-append (c ∷ s) t = drop-append s t

framed :
    (header v rest : Bytes)
    → header ++ crlf ++ v ++ crlf ++ rest ≡ header ++ b'\r' ∷ b'\n' ∷ (v ++ b'\r' ∷ b'\n' ∷ rest)
framed [] v rest = ap (λ s. b'\r' ∷ b'\n' ∷ s) (append_assoc v crlf rest)
framed (c ∷ header) v rest = ap (λ s. c ∷ s) (framed header v rest)

bounded-to_string :
    (limit n : ℕ) → limit < 2 ^ 63 → n ≤ limit → bounded limit (parse_all (to_string n)) ≡ some n
bounded-to_string limit n small h =
    let within : leb n limit ≡ true = ground arith in
    let n_small : n < 2 ^ 63 = omega arith in rw (parse_all-to_string n n_small, within) refl

bulk_data-append :
    (data_start : ℕ) (v rest : Bytes)
    → bulk_data data_start (length v) (v ++ b'\r' ∷ b'\n' ∷ rest)
      ≡ read v (data_start + length v + 2) rest
unfolding bulk_data after_data
bulk_data-append data_start v rest =
    let long : ltb (length (v ++ b'\r' ∷ b'\n' ∷ rest)) (length v) ≡ false =
      ground (arith, length-append v (b'\r' ∷ b'\n' ∷ rest)) in
    rw (long, take-append v (b'\r' ∷ b'\n' ∷ rest), drop-append v (b'\r' ∷ b'\n' ∷ rest)) refl

length-resp_bulk_string :
    (v : Bytes) → length (resp_bulk_string v) ≡ 1 + length (to_string (length v)) + 2 + length v + 2
unfolding resp_bulk_string
length-resp_bulk_string v =
    let d = to_string (length v) in
    omega (
      arith,
      length-append (d ++ crlf ++ v) crlf,
      length-append (d ++ crlf) v,
      length-append d crlf,
    )

read_bulk-resp_bulk_string :
    (position : ℕ) (v rest : Bytes)
    → length v ≤ max_bulk_size
    → read_bulk position (resp_bulk_string v ++ rest)
      ≡ read v (position + length (resp_bulk_string v)) rest
unfolding read_bulk
read_bulk-resp_bulk_string position v rest h =
    let header = to_string (length v) in
    let small : max_bulk_size < 2 ^ 63 = omega arith in
    let end_ : position + 1 + length header + 2 + length v + 2
        ≡ position + length (resp_bulk_string v) =
      omega (arith, length-resp_bulk_string v) in
    unfold resp_bulk_string in
    rw
      (
        framed header v rest,
        find_crlf-plain header (v ++ b'\r' ∷ b'\n' ∷ rest) (to_string-is_plain (length v)),
        bounded-to_string max_bulk_size (length v) small h,
        bulk_data-append (position + 1 + length header + 2) v rest,
      )
      (ap (λ p. read v p rest) end_)

read_arguments-bulk_strings :
    (arguments : List Bytes) (position : ℕ) (rest : Bytes) (done : List Bytes)
    → AreWithinLimits arguments
    → read_arguments (length arguments) position (bulk_strings arguments ++ rest) done
      ≡ complete_result (done ++ arguments) (position + length (bulk_strings arguments))
unfolding read_arguments bulk_strings
read_arguments-bulk_strings [] position rest done h =
    let same : position + 0 ≡ position = omega arith in rw (same, append-nil done) refl
read_arguments-bulk_strings (v ∷ arguments) position rest done h =
    let bulk = resp_bulk_string v in
    let later = bulk_strings arguments in
    let further = position + length bulk in
    let end_ : further + length later ≡ position + length (bulk ++ later) =
      omega (arith, length-append bulk later) in
    let first = read_bulk-resp_bulk_string position v (later ++ rest) h.0 in
    rw (append_assoc bulk later rest) (
      rw (first, read_arguments)
        (read_arguments-bulk_strings arguments further rest (done ++ v ∷ []) h.1
          ∙ rw (append_assoc done (v ∷ []) arguments, end_) refl))

-- For at most 1048576 arguments of at most 512 MB each, and any bytes behind the command,
-- `parseRespCommand` reads what `respArray` wrote as a complete command with these arguments and
-- takes exactly its bytes.
pub parse_resp_command-resp_array :
    (arguments : List Bytes) (rest : Bytes)
    → length arguments ≤ max_arguments
    → AreWithinLimits arguments
    → parse_resp_command (resp_array arguments ++ rest)
      ≡ complete_result arguments (length (resp_array arguments))
unfolding parse_resp_command parse_array resp_array
parse_resp_command-resp_array arguments rest few within =
    let header = to_string (length arguments) in
    let body = bulk_strings arguments in
    let small : max_arguments < 2 ^ 63 = omega arith in
    let end_ : 1 + length header + 2 + length body ≡ suc (length (header ++ crlf ++ body)) =
      omega (arith, length-append (header ++ crlf) body, length-append header crlf) in
    let shape : header ++ crlf ++ body ++ rest ≡ header ++ b'\r' ∷ b'\n' ∷ (body ++ rest) =
      append_assoc (header ++ crlf) body rest ∙ append_assoc header crlf (body ++ rest) in
    rw
      (
        shape,
        find_crlf-plain header (body ++ rest) (to_string-is_plain (length arguments)),
        bounded-to_string max_arguments (length arguments) small few,
        parse_array,
      )
      (read_arguments-bulk_strings arguments (1 + length header + 2) rest [] within
        ∙ ap (complete_result arguments) end_)
